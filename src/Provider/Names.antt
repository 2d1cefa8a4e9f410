-- ===== src/Provider/Names.antt =====
-- The names under which provider.go keeps keys in the store.
use mathlib.Core.List.{append_cancel_left, append_cancel_right}
use gpt_load_fix.Prelude.{ℕ, ◌≡◌, ◌≢◌, [], ◌∷◌, ◌++◌, ap, arith}
use gpt_load_fix.Prelude.Text.{Text, bytes}
use gpt_load_fix.Prelude.Text.Decimal.{format_uint, format_uint-injective}

-- fmt.Sprintf("key:%d", id)
unfoldable pub key_hash_key : ℕ → Text
key_hash_key id = bytes "key:" ++ format_uint id

-- fmt.Sprintf("group:%d:active_keys", id)
unfoldable pub active_keys_key : ℕ → Text
active_keys_key id = bytes "group:" ++ format_uint id ++ bytes ":active_keys"

abbrev pub initialization_flag : Text
initialization_flag = bytes "initialization:db_keys_loaded"

-- The names do not clash: two keys, two groups, or a key and a group have different ones.
pub key_hash_key-injective : (i j : ℕ) → key_hash_key i ≡ key_hash_key j → i ≡ j
unfolding key_hash_key
key_hash_key-injective i j h =
    format_uint-injective i j (append_cancel_left (bytes "key:") (format_uint i) (format_uint j) h)

pub active_keys_key-injective : (i j : ℕ) → active_keys_key i ≡ active_keys_key j → i ≡ j
unfolding active_keys_key
active_keys_key-injective i j h = format_uint-injective i j (
    append_cancel_right (format_uint i) (format_uint j) (bytes ":active_keys")
      (append_cancel_left (bytes "group:") _ _ h))

abbrev first : Text → ℕ
first [] = 0
first (c ∷ t) = c

pub key_hash_key-ne-active_keys_key : (i j : ℕ) → key_hash_key i ≢ active_keys_key j
unfolding key_hash_key active_keys_key
key_hash_key-ne-active_keys_key i j h = absurd (omega (arith, ap first h))

pub initialization_flag-ne-active_keys_key : (j : ℕ) → initialization_flag ≢ active_keys_key j
unfolding active_keys_key
initialization_flag-ne-active_keys_key j h = absurd (omega (arith, ap first h))
