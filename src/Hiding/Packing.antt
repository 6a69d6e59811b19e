-- ===== src/Hiding/Packing.antt =====
-- The operations of src/private_billing/core/hiding.py on vectors that a plaintext has room for.
use private_billings.Prelude.{◌≤◌, ◌≡◌, List, length, arith, replicate, length-replicate}
use private_billings.Python.Raises.{ok}
use private_billings.Number.{Number}
use private_billings.Vector.{pad_to}
use private_billings.Vector.Ops.{pad_to_lem}
use private_billings.Hiding.Openfhe.{Fhe}
use private_billings.Hiding.{HidingContext, PublicHidingContext, pack, encrypt, invert_flags, scale}

pack-ok :
    {N : Type 0} (F : Fhe N) (context : F.CryptoContext) (values : List N)
    → length values ≤ F.batch_size context
    → pack F context values ≡ ok (F.make_packed_plaintext context values)
unfolding pack
pack-ok F context values room = ground (arith, room)

module _ {N : Type 0} ⦃n : Number N⦄ {F : Fhe N} where
  -- What `encrypt`, `invert_flags` and `scale` return if they raise nothing.
  abbrev pub encrypted : HidingContext F → List N → F.Ciphertext
  encrypted hc values =
      F.encrypt hc.cc hc.public_key
        (F.make_packed_plaintext hc.cc (pad_to values hc.cycle_length n.nought))

  abbrev pub inverted : PublicHidingContext F → F.Ciphertext → F.Ciphertext
  inverted phc flags =
      F.eval_sub phc.cc (F.make_packed_plaintext phc.cc (replicate phc.cycle_length n.one)) flags

  abbrev pub scaled : PublicHidingContext F → F.Ciphertext → List N → F.Ciphertext
  scaled phc ctxt scalars = F.eval_mult_plain phc.cc ctxt (F.make_packed_plaintext phc.cc scalars)

  pub encrypt-ok :
      (hc : HidingContext F) (values : List N)
      → hc.cycle_length ≤ F.batch_size hc.cc
      → length values ≤ F.batch_size hc.cc
      → encrypt hc values ≡ ok (encrypted hc values)
  unfolding encrypt
  encrypt-ok hc values fits room =
      let padded = pad_to_lem values hc.cycle_length n.nought in
      rw (pack-ok F hc.cc (pad_to values hc.cycle_length n.nought) (omega (arith, padded.0)))

  pub invert_flags-ok :
      (phc : PublicHidingContext F) (flags : F.Ciphertext)
      → phc.cycle_length ≤ F.batch_size phc.cc
      → invert_flags phc flags ≡ ok (inverted phc flags)
  unfolding invert_flags
  invert_flags-ok phc flags room =
      rw (pack-ok F phc.cc (replicate phc.cycle_length n.one) (omega (arith, length-replicate {0})))

  pub scale-ok :
      (phc : PublicHidingContext F) (ctxt : F.Ciphertext) (scalars : List N)
      → length scalars ≤ F.batch_size phc.cc
      → scale phc ctxt scalars ≡ ok (scaled phc ctxt scalars)
  unfolding scale
  scale-ok phc ctxt scalars room = rw (pack-ok F phc.cc scalars room)
