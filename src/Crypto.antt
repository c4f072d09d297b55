-- ===== src/Crypto.antt =====
-- backend/app/core/crypto.py: credentials at rest. `encrypt` and `decrypt` are those of the Fernet
-- cipher of `_fernet()`, a library; `decrypt` gives none where it raises InvalidToken.
use network_monitoring.Prelude.{
  String, refl, ap, Bool, true, not, Option, none, some, ◌≡◌, if◌then◌else◌, nat_eq, string_eq,
}
use Prim.Native.String
use network_monitoring.Text.{
  starts_with, chars_after, text_length, starts_with-append, chars_after-append,
}

abbrev token_prefix : String
token_prefix = "enc::"

unfoldable pub is_encrypted : String → Bool
unfolding starts_with
is_encrypted value = starts_with token_prefix value

abbrev pub is_protected : Option String → Bool
is_protected none = true
is_protected (some value) = is_encrypted value

module _ (encrypt : String → String) (decrypt : String → Option String) where
  unfoldable pub encrypt_value : String → String
  encrypt_value plaintext = String.◌++◌ token_prefix (encrypt plaintext)

  unfoldable pub decrypt_value : String → String
  unfolding is_encrypted chars_after text_length
  decrypt_value value =
      if not (is_encrypted value)
      then value
      else elim (decrypt (chars_after (text_length token_prefix) value)) [
        | none ↦ value
        | some plaintext ↦ plaintext
      ]

  -- EncryptedString: what is stored of a value, and what a stored value reads as
  unfoldable pub process_bind_param : Option String → Option String
  unfolding encrypt_value
  process_bind_param none = none
  process_bind_param (some value) = some (encrypt_value value)

  unfoldable pub process_result_value : Option String → Option String
  unfolding decrypt_value
  process_result_value none = none
  process_result_value (some value) = some (decrypt_value value)

  decrypt-encrypt_value :
      (p : String) → decrypt (encrypt p) ≡ some p → decrypt_value (encrypt_value p) ≡ p
  unfolding encrypt_value decrypt_value is_encrypted starts_with chars_after text_length
  decrypt-encrypt_value p h =
      rw
        (
          starts_with-append token_prefix (encrypt p),
          chars_after-append token_prefix (encrypt p),
          h,
        )
        refl

  -- A credential that is written is stored as a token and reads back as it was, whatever it is,
  -- tokens included, if the cipher decrypts what it has encrypted.
  pub process_result_value-process_bind_param :
      ((p : String) → decrypt (encrypt p) ≡ some p)
      → (value : Option String)
      → (is_protected (process_bind_param value) ≡ true)
        × (process_result_value (process_bind_param value) ≡ value)
  unfolding process_bind_param process_result_value encrypt_value is_encrypted starts_with
  process_result_value-process_bind_param h none = (refl, refl)
  process_result_value-process_bind_param h (some p) =
      (starts_with-append token_prefix (encrypt p), ap some (decrypt-encrypt_value p (h p)))
