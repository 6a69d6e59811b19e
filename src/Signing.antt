-- ===== src/Signing.antt =====
-- src/private_billing/server/signing.py: signatures, and the public keys that are sent with messages. What
-- the package cryptography and pickle do is a parameter.
pub mod Signed
use private_billings.Prelude.{ℕ, Bool, true, false, List, [], ◌∷◌}
use private_billings.Python.Raises.{Result, ok, err, ◌>>=◌, attribute_error}

abbrev pub Bytes : Type 0
Bytes = List ℕ

-- `Encoding`; there are others.
pub data Encoding : Type 0 where
  pem open_ssh der other_encoding : Encoding

pub data PublicFormat : Type 0 where
  subject_public_key_info other_format : PublicFormat

-- The part of cryptography that is called: keys on one curve, hashes, and ECDSA, which draws a random
-- number for each signature. `dumps` is that of pickle.
pub record Crypto : Type 1 where
  pub PrivateKey : Type 0
  pub PublicKey : Type 0
  pub HashAlgorithm : Type 0
  pub Object : Type 0
  pub sha256 : HashAlgorithm
  pub dumps : Object → Bytes
  pub generate_private_key : ℕ → PrivateKey
  pub public_key : PrivateKey → PublicKey
  pub public_bytes : PublicKey → Encoding → PublicFormat → Result Bytes
  pub load_pem_public_key : Bytes → Result PublicKey
  pub load_ssh_public_key : Bytes → Result PublicKey
  pub load_der_public_key : Bytes → Result PublicKey
  pub digest : HashAlgorithm → Bytes → Bytes
  pub sign : PrivateKey → ℕ → Bytes → HashAlgorithm → Bytes
  pub verify : PublicKey → Bytes → Bytes → HashAlgorithm → Result (Unit {0})

pub record TransferablePublicKey : Type 0 where
  pub public_key_bytes : Bytes
  pub encoding : Encoding
  pub format : PublicFormat

module _ (c : Crypto) where
  pub record Signature : Type 0 where
    pub signature : Bytes
    pub hash_alg : c.HashAlgorithm

  -- What is signed: bytes, or an object, which is pickled.
  pub data Signable : Type 0 where
    bytes : Bytes → Signable
    object : c.Object → Signable

  -- What `TransferablePublicKey.public_key` returns: a key, or for other encodings an error, as a value.
  pub data Loaded : Type 0 where
    key : c.PublicKey → Loaded
    not_implemented_error : Loaded

  -- `TransferablePublicKey.__init__`
  unfoldable pub new_transferable :
      c.PublicKey → Encoding → PublicFormat → Result TransferablePublicKey
  new_transferable public_key encoding format = do
    public_key_bytes ← c.public_bytes public_key encoding format
    ok (record { public_key_bytes = public_key_bytes; encoding = encoding; format = format })

  -- `Signer.__init__` draws the private key, whose public key is that of the signer.
  pub record Signer : Type 0 where
    pub private_key : c.PrivateKey

  abbrev pub new_signer : ℕ → Signer
  new_signer random = record { private_key = c.generate_private_key random }

  abbrev pub public_key_of : Signer → c.PublicKey
  public_key_of signer = c.public_key signer.private_key

  unfoldable pub get_transferable_public_key :
      Signer → Encoding → PublicFormat → Result TransferablePublicKey
  unfolding new_transferable
  get_transferable_public_key signer encoding format =
      new_transferable (public_key_of signer) encoding format

  abbrev as_key : Result c.PublicKey → Result Loaded
  as_key (ok k) = ok (key k)
  as_key (err x) = err x

  -- `TransferablePublicKey.public_key`
  unfoldable pub load : Encoding → Bytes → Result Loaded
  load pem public_key_bytes = as_key (c.load_pem_public_key public_key_bytes)
  load open_ssh public_key_bytes = as_key (c.load_ssh_public_key public_key_bytes)
  load der public_key_bytes = as_key (c.load_der_public_key public_key_bytes)
  load other_encoding public_key_bytes = ok not_implemented_error

  abbrev to_bytes : Signable → Bytes
  to_bytes (bytes b) = b
  to_bytes (object o) = c.dumps o

  -- `Signer._hash_obj`
  unfoldable pub hash_obj : Bytes → c.HashAlgorithm → Bytes
  hash_obj obj hash_alg = c.digest hash_alg obj

  -- `Signer.sign`, with the random number of ECDSA
  unfoldable pub sign : c.PrivateKey → ℕ → Signable → c.HashAlgorithm → Signature
  unfolding hash_obj
  sign private_key random obj hash_alg = record {
    signature = c.sign private_key random (hash_obj (to_bytes obj) hash_alg) hash_alg;
    hash_alg = hash_alg;
  }

  -- The method of what was loaded; an error has none.
  abbrev verify_loaded : Loaded → Bytes → Bytes → c.HashAlgorithm → Result (Unit {0})
  verify_loaded (key k) signature digest hash_alg = c.verify k signature digest hash_alg
  verify_loaded not_implemented_error signature digest hash_alg = err attribute_error

  -- `Signer.verify`, under a key that was sent
  unfoldable pub verify : Signable → Signature → TransferablePublicKey → Result (Unit {0})
  unfolding hash_obj load
  verify obj sig public_key = do
    loaded ← load public_key.encoding public_key.public_key_bytes
    verify_loaded loaded sig.signature (hash_obj (to_bytes obj) sig.hash_alg) sig.hash_alg

  abbrev succeeds : Result (Unit {0}) → Bool
  succeeds (ok done) = true
  succeeds (err x) = false

  -- `TransferablePublicKey.verify_signature` catches whatever is raised.
  unfoldable pub verify_signature : TransferablePublicKey → Signable → Signature → Bool
  verify_signature public_key obj signature = succeeds (verify obj signature public_key)
