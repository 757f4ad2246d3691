-- ===== src/Platform.antt =====
-- What the program calls and does not implement, as one parameter of the model: hashing, base64,
-- and the conversions between numbers, UUIDs and text. The laws are the documented round trips.
use delegate_implementation.Base.{ℕ, ℤ, pos, Text, List, Option, some, ◌≡◌, Dict}

-- `bytes`, each below 256.
abbrev pub Bytes : Type 0
Bytes = List ℕ

-- The fields of one stream entry: `decode_responses=True` makes every value a `str`.
abbrev pub Fields : Type 0
Fields = Dict Text

pub record Platform : Type 0 where
  -- `hashlib.sha256(data).hexdigest()`
  pub sha256_hex : Bytes → Text
  -- `base64.b64encode(data).decode("ascii")`
  pub b64encode : Bytes → Text
  -- `base64.b64decode(text)`; `none` where it raises `binascii.Error`
  pub b64decode : Text → Option Bytes
  -- `str(n)` for n ≥ 0
  pub str_int : ℕ → Text
  -- `int(text)`; `none` where it raises `ValueError`
  pub int_str : Text → Option ℤ
  -- `UUIDField.to_python(text)`, printed again; `none` where it raises `ValidationError`
  pub to_uuid : Text → Option Text
  pub b64decode-b64encode : (content : Bytes) → b64decode (b64encode content) ≡ some content
  pub int_str-str_int : (n : ℕ) → int_str (str_int n) ≡ some (pos n)
