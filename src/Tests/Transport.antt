-- ===== src/Tests/Transport.antt =====
-- The properties of signatures and of the loop of a server, with keys that sign by repeating the digest.
use private_billings.Prelude.{
  Option, ℕ, ◌≡◌, ◌⊎◌, refl, sym, ap, none, some, List, [], ◌∷◌, ◌==◌, ==_refl, if◌then◌else◌,
}
use private_billings.Python.Raises.{Result, ok, err, foreign_error}
use private_billings.Python.Dict.{Dict}
use private_billings.Signing.{
  pem, subject_public_key_info, Crypto, TransferablePublicKey, object, sign, verify_signature,
  new_signer, get_transferable_public_key, new_transferable,
}
use private_billings.Signing.Signed.{IsCrypto, is_loadable, verify_signature-sign}
use private_billings.Network.{NodeInfo, get_node_info}
use private_billings.Network.Dispatch.{
  Message, Incoming, unsigned, seed, handler_of, handle_message, core_handlers,
}
use private_billings.Network.Verified.{started}
use private_billings.Network.Sending.{sign_msg, has_valid_signature}
use private_billings.Network.Sending.Delivered.{handle_message-sign_msg}
use private_billings.Network.Serving.{Arrival, serve}
use private_billings.Network.Serving.Answers.{seen_to, messages, EndsEarly, serve_cases}
use private_billings.Tests.Edge.{decode_number, repeats_key, seed_arrives, core_1}

-- A key pair is a number; a signature is the key and then the digest.
abbrev check_copy : ℕ → List ℕ → Result (Unit {0})
check_copy k [] = err foreign_error
check_copy k (x ∷ rest) = if x == k then ok tt else err foreign_error

abbrev number_of : List ℕ → Result ℕ
number_of [] = err foreign_error
number_of (k ∷ b) = ok k

abbrev copying : Crypto
copying = record {
  PrivateKey = ℕ;
  PublicKey = ℕ;
  HashAlgorithm = ℕ;
  Object = ℕ;
  sha256 = 0;
  dumps = λ o. o ∷ [];
  generate_private_key = λ random. random;
  public_key = λ k. k;
  public_bytes = λ k encoding format. ok (k ∷ []);
  load_pem_public_key = number_of;
  load_ssh_public_key = number_of;
  load_der_public_key = number_of;
  digest = λ hash_alg b. b;
  sign = λ k random digest hash_alg. k ∷ digest;
  verify = λ k signature digest hash_alg. check_copy k signature;
}

loads : (k : ℕ) (b : List ℕ) → ok (k ∷ []) ≡ ok b → number_of b ≡ ok k
loads k b e = ap (λ (r : Result (List ℕ)). elim r [ ok c ↦ number_of c | err x ↦ ok k ]) (sym e)

copying-IsCrypto : IsCrypto copying
copying-IsCrypto = record {
  load_pem_bytes = λ k format b e. loads k b e;
  load_ssh_bytes = λ k format b e. loads k b e;
  load_der_bytes = λ k format b e. loads k b e;
  verify_signed = λ k random digest hash_alg. rw (==_refl k) refl;
}

abbrev key_4 : TransferablePublicKey
key_4 = record { public_key_bytes = 4 ∷ []; encoding = pem; format = subject_public_key_info }

verify_signature-sign_example :
    verify_signature copying key_4 (object 8) (sign copying 4 99 (object 8) 0) ≡ is_loadable pem
unfolding get_transferable_public_key new_transferable
verify_signature-sign_example =
    verify_signature-sign copying copying-IsCrypto (new_signer copying 4) pem
      subject_public_key_info key_4 99 (object 8) 0 refl

abbrev seed_77 : Message ℕ
seed_77 = record { reply_address = 51; type = seed; content = 77 }

abbrev write_number : Message ℕ → List ℕ
write_number msg = msg.content ∷ []

abbrev knows_1 : Dict NodeInfo
knows_1 = (51, core_1) ∷ []

handle_message-sign_msg_example :
    (started (
        (handle_message decode_number
          (has_valid_signature copying)
          knows_1
          core_handlers
          (sign_msg copying write_number 1 99 seed_77)).0)
      ≡ (handler_of core_handlers seed, seed_77, get_node_info 51 knows_1) ∷ [])
    × ((handle_message decode_number
          (has_valid_signature copying)
          knows_1
          core_handlers
          (sign_msg copying write_number 1 99 seed_77)).1
        ≡ ok tt)
unfolding get_node_info
handle_message-sign_msg_example =
    handle_message-sign_msg copying copying-IsCrypto write_number decode_number knows_1
      core_handlers 1 99 seed_77 (1 ∷ []) refl refl refl

-- Bytes that are a seed with a good signature, a message without any, or an empty string.
abbrev from_wire : List ℕ → Result (Option (Incoming ℕ))
from_wire [] = err foreign_error
from_wire (x ∷ []) = ok (some seed_arrives)
from_wire (x ∷ y ∷ []) = ok none
from_wire (x ∷ y ∷ z ∷ rest) = ok (some (unsigned seed_77))

abbrev arrivals : List Arrival
arrivals =
    (some (1 ∷ []), knows_1)
    ∷ (none, knows_1)
    ∷ (some (1 ∷ 2 ∷ []), knows_1)
    ∷ (some (1 ∷ 2 ∷ 3 ∷ []), knows_1)
    ∷ (some (1 ∷ []), knows_1)
    ∷ []

serve_cases_example :
    (((serve from_wire decode_number repeats_key core_handlers arrivals).1 ≡ ok tt)
      × (seen_to ((serve from_wire decode_number repeats_key core_handlers arrivals).0)
          ≡ messages from_wire arrivals))
    ⊎ EndsEarly from_wire decode_number repeats_key core_handlers arrivals
serve_cases_example = serve_cases from_wire decode_number repeats_key core_handlers arrivals
