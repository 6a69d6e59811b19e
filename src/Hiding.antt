-- ===== src/Hiding.antt =====
-- src/private_billing/core/hiding.py: what hides a client's data. OpenFHE, numpy's generator and
-- SHA-256 are parameters.
pub mod Openfhe
pub mod Laws
pub mod Keys
pub mod Packing
pub mod Parameters
use Prim.Native.String.{String, ◌++◌}
use private_billings.Prelude.{
  ℕ, ◌<◌, Bool, Option, none, some, List, map, length, ltb, leb, if◌then◌else◌, replicate,
}
use private_billings.Python.Raises.{
  Result, ok, err, ◌>>=◌, attribute_error, not_implemented, foreign_error,
}
use private_billings.Python.Action
use private_billings.Python.Action.{Action}
use private_billings.Number.{Number}
use private_billings.Vector.{vec, add, pad_to}
use private_billings.Masking.{Pcg64, SharedMaskGenerator, is_stable, generate_masks}
use Openfhe.{Fhe}

-- `get_masking_iv` takes the SHA-256 digest of a text as a little-endian integer.
pub record Hashing : Type 0 where
  pub sha256 : String → ℕ
  -- `repr` of an int
  pub repr : ℕ → String

unfoldable pub get_masking_iv : Hashing → ℕ → String → ℕ
get_masking_iv h round obj_name = h.sha256 ("round=" ++ (h.repr round ++ (", " ++ obj_name)))

pub record HidingContext {N : Type 0} (F : Fhe N) : Type 0 where
  pub cycle_length : ℕ
  pub cc : F.CryptoContext
  pub public_key : F.PublicKey
  pub secret_key : F.SecretKey
  pub mask_generator : SharedMaskGenerator N

-- The attribute with the bytes of the relinearization key is there only on an object that has been
-- unpickled.
pub record PublicHidingContext {N : Type 0} (F : Fhe N) : Type 0 where
  pub cycle_length : ℕ
  pub cc : F.CryptoContext
  pub public_key : F.PublicKey
  pub relinearization_key_bytes : Option (List ℕ)

-- `MakeCKKSPackedPlaintext` raises if there are more values than the batch size.
unfoldable pub pack : {N : Type 0} (F : Fhe N) → F.CryptoContext → List N → Result F.Plaintext
pack F context values =
    if leb (length values) (F.batch_size context)
    then ok (F.make_packed_plaintext context values)
    else err foreign_error

module _ {N : Type 0} ⦃n : Number N⦄ {F : Fhe N} where
  unfoldable pub is_ready : HidingContext F → Bool
  is_ready hc = is_stable hc.mask_generator

  unfoldable pub get_public_hiding_context : HidingContext F → PublicHidingContext F
  get_public_hiding_context hc = record {
    cycle_length = hc.cycle_length;
    cc = hc.cc;
    public_key = hc.public_key;
    relinearization_key_bytes = none;
  }

  -- `__setstate__` keeps the bytes of the relinearization key that came with the pickled state.
  unfoldable pub set_state : List ℕ → PublicHidingContext F → PublicHidingContext F
  set_state bytes phc = record phc { relinearization_key_bytes = some bytes }

  unfoldable pub mask : Pcg64 → HidingContext F → List N → ℕ → Result (List N)
  mask pcg64 hc values iv = do
    masks ← generate_masks pcg64 hc.mask_generator iv (length values)
    add values (vec masks)

  unfoldable pub encrypt : HidingContext F → List N → Result F.Ciphertext
  unfolding pack
  encrypt hc values = do
    ptxt ← pack F hc.cc (pad_to values hc.cycle_length n.nought)
    ok (F.encrypt hc.cc hc.public_key ptxt)

  unfoldable pub decrypt : HidingContext F → F.Ciphertext → List N
  decrypt hc values =
      F.real_packed_value (F.set_length (F.decrypt hc.cc values hc.secret_key) hc.cycle_length)

  -- The method of the public context has no secret key to use.
  unfoldable pub decrypt_public : PublicHidingContext F → F.Ciphertext → Result (List N)
  decrypt_public phc values = err not_implemented

  unfoldable pub invert_flags : PublicHidingContext F → F.Ciphertext → Result F.Ciphertext
  unfolding pack
  invert_flags phc flags = do
    ptxt_ones ← pack F phc.cc (replicate phc.cycle_length n.one)
    ok (F.eval_sub phc.cc ptxt_ones flags)

  unfoldable pub scale : PublicHidingContext F → F.Ciphertext → List N → Result F.Ciphertext
  unfolding pack
  scale phc ctxt scalars = do
    ptxt_msg ← pack F phc.cc scalars
    ok (F.eval_mult_plain phc.cc ctxt ptxt_msg)

  -- OpenFHE looks the relinearization key up in its global store.
  unfoldable pub multiply :
      PublicHidingContext F → F.Ciphertext → F.Ciphertext → Action F.KeyStore F.Ciphertext
  multiply phc ctxt_1 ctxt_2 store = (F.eval_mult phc.cc store ctxt_1 ctxt_2, store)

  -- Deserializing a key replaces the keys of the store.
  load_key : PublicHidingContext F → Option (List ℕ) → Action F.KeyStore (Unit {0})
  load_key phc none store = (err attribute_error, store)
  load_key phc (some bytes) store = (ok tt, F.deserialize_eval_mult_key phc.cc bytes store)

  unfoldable pub activate_keys : PublicHidingContext F → Action F.KeyStore (Unit {0})
  unfolding load_key
  activate_keys phc store =
      let tag = F.key_tag phc.public_key in
      let serialization = F.serialize_eval_mult_key phc.cc store tag in
      if ltb (length serialization) 1000
      then load_key phc phc.relinearization_key_bytes store
      else (ok tt, store)
