-- ===== src/Tests/Serialization.antt =====
-- The properties of serialization on a small object.
use private_billings.Prelude.{ℕ, zero, suc, ap, ◌≡◌, refl, List, [], ◌∷◌, All}
use private_billings.Python.Raises.{ok}
use private_billings.Number.Int.{ℤ, pos, negsuc}
use private_billings.Hiding.Parameters.{ContextParameters}
use private_billings.Serialization.Names.{Attributes, get_attribute}
use private_billings.Serialization.{
  Files, Value, ciphertext_value, context_value, other_value, type_of, get_state, set_state,
}
use private_billings.Serialization.State.{IsObject}
use private_billings.Serialization.RoundTrip.{IsFaithful}
use private_billings.Serialization.Restored.{
  IsPickleable, set_state-get_state, get_state-IsPickleable,
}
use private_billings.Tests.Clear.{ClearText, clear, clear_context}

-- Integers as two numbers each.
abbrev write_values : List ℤ → List ℕ
write_values [] = []
write_values (pos n ∷ v) = 0 ∷ n ∷ write_values v
write_values (negsuc n ∷ v) = 1 ∷ n ∷ write_values v

abbrev read_values : List ℕ → List ℤ
read_values [] = []
read_values (x ∷ []) = []
read_values (zero ∷ n ∷ bytes) = pos n ∷ read_values bytes
read_values (suc k ∷ n ∷ bytes) = negsuc n ∷ read_values bytes

abbrev write_clear : ClearText → List ℕ
write_clear c = c.key ∷ write_values c.values

abbrev read_clear : List ℕ → ClearText
read_clear [] = record { key = 0; values = [] }
read_clear (k ∷ bytes) = record { key = k; values = read_values bytes }

abbrev write_parameters : ContextParameters → List ℕ
write_parameters p =
    p.scaling_mod_size ∷ p.first_mod_size ∷ p.ring_dim ∷ p.batch_size ∷ p.num_large_digits
    ∷ p.multiplicative_depth ∷ []

abbrev read_parameters : List ℕ → ContextParameters
read_parameters (a ∷ b ∷ c ∷ d ∷ e ∷ f ∷ []) = record {
  scaling_mod_size = a;
  first_mod_size = b;
  ring_dim = c;
  batch_size = d;
  num_large_digits = e;
  multiplicative_depth = f;
}
read_parameters bytes = clear_context

abbrev first_of : ℕ → List ℕ → ℕ
first_of n [] = n
first_of n (k ∷ bytes) = k

abbrev clear_files : Files clear
clear_files = record {
  write_ciphertext = write_clear;
  write_public_key = λ pk. pk ∷ [];
  write_context = write_parameters;
  write_relinearization_keys = λ cc store. store ∷ [];
  write_rotation_keys = λ cc store. [];
  read_ciphertext = read_clear;
  read_public_key = first_of 0;
  read_context = read_parameters;
  read_relinearization_keys = λ cc bytes store. first_of store bytes;
  read_rotation_keys = λ cc bytes store. store;
}

read-write : (v : List ℤ) → read_values (write_values v) ≡ v
read-write [] = refl
read-write (pos n ∷ v) = ap (λ (w : List ℤ). pos n ∷ w) (read-write v)
read-write (negsuc n ∷ v) = ap (λ (w : List ℤ). negsuc n ∷ w) (read-write v)

clear-IsFaithful : IsFaithful clear_files
clear-IsFaithful = record {
  read_ciphertext_written =
      λ c. ap (λ (v : List ℤ). record { key = c.key; values = v }) (read-write c.values);
  read_public_key_written = λ pk. refl;
  read_context_written = λ cc. refl;
}

-- An object with the attributes "a" and "b", an OpenFHE object each, and "c".
abbrev some_object : Attributes (Value clear ℕ)
some_object =
    (97 ∷ [], ciphertext_value (record { key = 7; values = pos 5 ∷ [] }))
    ∷ (98 ∷ [], context_value clear_context)
    ∷ (99 ∷ [], other_value 4)
    ∷ []

some-IsObject : IsObject some_object
unfolding type_of
some-IsObject = (refl, refl, (refl, refl, (refl, refl, tt)))

set_state-get_state_example :
    (state : Attributes (Value clear ℕ)) × (d : Attributes (Value clear ℕ)) × (store : ℕ)
    × ((get_state clear_files 7 some_object).0 ≡ ok state)
    × (set_state clear_files state 0 ≡ (ok d, store))
    × (get_attribute (98 ∷ []) d ≡ get_attribute (98 ∷ []) some_object)
set_state-get_state_example =
    set_state-get_state clear_files clear-IsFaithful 7 some_object 0 (98 ∷ []) some-IsObject

get_state-IsPickleable_example :
    (state : Attributes (Value clear ℕ)) × ((get_state clear_files 7 some_object).0 ≡ ok state)
    × All (λ x. IsPickleable clear_files 7 x.1) state
    × (get_attribute (97 ∷ []) ((get_state clear_files 7 some_object).1)
        ≡ get_attribute (97 ∷ []) some_object)
get_state-IsPickleable_example =
    get_state-IsPickleable clear_files 7 some_object (97 ∷ []) some-IsObject refl
