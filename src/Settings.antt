-- ===== src/Settings.antt =====
-- control_plane/control_plane/settings.py: the settings that the program reads from the environment,
-- a dict of texts. `float` and the whitespace of `str.strip` are parameters; the fixed options of
-- Django are left out.
pub mod Names
use delegate_implementation.Base.{
  ℕ, ℤ, Text, codes, text_eq, lookup, is_empty, split_on, List, [], ◌∷◌, map, keep, Option, none,
  some, Bool, true, false, not, String, if◌then◌else◌, Result, ok, or_raise, value_error, ◌>>=◌,
}
use delegate_implementation.Platform.{Platform, Fields}
use delegate_implementation.Dispatcher.Requests.{field_or}

module _ (is_space : ℕ → Bool) where
  -- `s.lstrip()`
  unfoldable pub left_strip : Text → Text
  left_strip [] = []
  left_strip (c ∷ s) = let rest = left_strip s in if is_space c then rest else c ∷ s

  -- `s.rstrip()`
  unfoldable pub right_strip : Text → Text
  right_strip [] = []
  right_strip (c ∷ s) = put_before c (right_strip s)
    where
      put_before : ℕ → Text → Text
      put_before c [] = if is_space c then [] else c ∷ []
      put_before c (d ∷ t) = c ∷ d ∷ t

  unfoldable pub strip : Text → Text
  unfolding left_strip right_strip
  strip s = right_strip (left_strip s)

  -- `[n.strip() for n in text.split(",") if n.strip()]`
  unfoldable pub extra_names : Text → List Text
  unfolding strip
  extra_names text = keep (λ n. not (is_empty n)) (map strip (split_on 44 text))

pub record DjangoSettings : Type 0 where
  pub secret_key : Text
  pub debug : Bool
  pub db_dir : Text
  pub redis_url : Text
  pub restart_gateway_control_url : Text
  pub ca_dir : Text
  pub media_root : Text
  pub workspace_fixtures_dir : Text
  pub delegate_cert_validity_days : ℤ
  pub registration_token_ttl_seconds : ℤ
  pub transfer_wait_timeout_seconds : Text
  pub redis_extra_san_names : List Text
  pub control_plane_extra_san_names : List Text

-- `BASE_DIR` joined with a name, `float(text)` kept as its text, and `str.isspace` of a character.
module _ (p : Platform) (below : Text → Text) (is_float : Text → Bool) (is_space : ℕ → Bool) where
  abbrev number_of : String → Text → Fields → Result ℤ
  number_of key default env = or_raise (p.int_str (field_or key env default)) value_error

  abbrev float_of : String → Text → Fields → Result Text
  float_of key default env =
      let text = field_or key env default in
      or_raise (if is_float text then some text else none) value_error

  unfoldable pub settings : Fields → Result DjangoSettings
  unfolding extra_names
  settings env = do
    days ← number_of "DELEGATE_CERT_VALIDITY_DAYS" (codes "1") env
    ttl ← number_of "REGISTRATION_TOKEN_TTL_SECONDS" (codes "300") env
    timeout ← float_of "TRANSFER_WAIT_TIMEOUT_SECONDS" (codes "15") env
    ok (record {
      secret_key = field_or "DJANGO_SECRET_KEY" env (codes "dev-secret-key-not-for-prod");
      debug = text_eq (field_or "DJANGO_DEBUG" env (codes "1")) (codes "1");
      db_dir = field_or "DB_DIR" env (below (codes "db"));
      redis_url = field_or "REDIS_URL" env (codes "rediss://redis:6379/0");
      restart_gateway_control_url =
          field_or "RESTART_GATEWAY_CONTROL_URL" env (codes "http://restart_gateway:8766");
      ca_dir = field_or "CA_DIR" env (below (codes "ca"));
      media_root = field_or "MEDIA_ROOT" env (below (codes "media"));
      workspace_fixtures_dir = field_or "WORKSPACE_FIXTURES_DIR" env (codes "/fixtures");
      delegate_cert_validity_days = days;
      registration_token_ttl_seconds = ttl;
      transfer_wait_timeout_seconds = timeout;
      redis_extra_san_names = extra_names is_space (field_or "REDIS_EXTRA_SAN_NAMES" env []);
      control_plane_extra_san_names =
          extra_names is_space (field_or "CONTROL_PLANE_EXTRA_SAN_NAMES" env []);
    })
