-- ===== src/Acl.antt =====
-- control_plane/delegates/redis_acl.py: the Redis ACL users of the delegates. The server's own
-- table of users is a parameter with the documented effect of its commands.
pub mod Reconcile
mod Tests
use delegate_implementation.Base.{
  ℕ, Text, codes, text_eq, List, [], ◌∷◌, ◌++◌, map, Option, none, some, Bool, true, false, not,
  ◌&&◌, ◌||◌, ◌≡◌, if◌then◌else◌, leb, ◌==◌, keep, any, String,
}
use delegate_implementation.Streams.{delegate_prefix, global_execution_events_stream}

-- `ACL SETUSER`, `ACL DELUSER` and `ACL USERS` of the Redis server. Rules that begin with `reset`
-- replace what the user had.
pub record AclServer : Type 1 where
  pub State : Type 0
  pub users : State → List Text
  pub rules_of : State → Text → Option (List Text)
  pub setuser : Text → List Text → State → State
  pub deluser : Text → State → State
  pub users-rules_of :
      (s : State) (u : Text)
      → any (λ v. text_eq v u) (users s) ≡ elim (rules_of s u) [ none ↦ false | some _ ↦ true ]
  pub rules_of-setuser :
      (u v : Text) (rules : List Text) (s : State)
      → rules_of (setuser u (codes "reset" ∷ rules) s) v
        ≡ (if text_eq u v then some (codes "reset" ∷ rules) else rules_of s v)
  pub rules_of-deluser :
      (u v : Text) (s : State)
      → rules_of (deluser u s) v ≡ (if text_eq u v then none else rules_of s v)

abbrev pub delegate_commands : List Text
delegate_commands = map codes (
    "xadd" ∷ "xread" ∷ "brpop" ∷ "lpush" ∷ "rpush" ∷ "llen" ∷ "lrange" ∷ "lpop" ∷ "rpop" ∷ "lrem"
    ∷ "zadd" ∷ "zrem" ∷ "zrangebyscore" ∷ "zrevrangebyscore" ∷ "hset" ∷ "hget" ∷ "hdel" ∷ "hgetall"
    ∷ "hexists" ∷ "sadd" ∷ "srem" ∷ "smembers" ∷ "set" ∷ "get" ∷ "evalsha" ∷ "script|load" ∷ "del"
    ∷ "exists" ∷ "expire" ∷ "multi" ∷ "exec" ∷ "discard" ∷ "watch" ∷ "unwatch" ∷ "publish"
    ∷ "subscribe" ∷ "psubscribe" ∷ "unsubscribe" ∷ "punsubscribe" ∷ "ping" ∷ "client|setinfo"
    ∷ "client|setname" ∷ [])

-- `[0-9a-f]` and `-`
pub data CharClass : Type 0 where
  hex dash : CharClass

abbrev pub in_class : CharClass → ℕ → Bool
in_class hex c = leb b'0' c && leb c b'9' || leb b'a' c && leb c b'f'
in_class dash c = c == b'-'

abbrev four : List CharClass → List CharClass
four rest = hex ∷ hex ∷ hex ∷ hex ∷ rest

-- `_UUID_RE`
abbrev pub uuid_pattern : List CharClass
uuid_pattern = four (four (dash ∷ four (dash ∷ four (dash ∷ four (dash ∷ four (four (four [])))))))

-- `^...$` of Python's `re`, which lets one newline stand at the end.
unfoldable pub matches : List CharClass → Text → Bool
matches [] [] = true
matches [] (c ∷ []) = c == 10
matches [] (c ∷ d ∷ cs) = false
matches (k ∷ ks) [] = false
matches (k ∷ ks) (c ∷ cs) = in_class k c && matches ks cs

unfoldable pub is_delegate_user : Text → Bool
unfolding matches
is_delegate_user name = matches uuid_pattern name

-- The rules behind `reset`; the password is the random one that is drawn for the user.
unfoldable pub after_reset : Text → Text → List Text
after_reset password delegate_id =
    let prefix = delegate_prefix delegate_id in
    codes "on"
    ∷ (codes ">" ++ password)
    ∷ (codes "~" ++ (prefix ++ codes "*"))
    ∷ (codes "&" ++ (prefix ++ codes "*"))
    ∷ (codes "%W~" ++ global_execution_events_stream)
    ∷ codes "-@all"
    ∷ map (λ c. codes "+" ++ c) delegate_commands

-- `_rules`
unfoldable pub rules : Text → Text → List Text
rules password delegate_id = codes "reset" ∷ after_reset password delegate_id

abbrev pub contains : Text → List Text → Bool
contains u = any (λ v. text_eq v u)

module _ (server : AclServer) where
  open server use {State, users, rules_of, setuser, deluser}

  unfoldable pub provision_delegate : Text → Text → State → State
  provision_delegate password delegate_id = setuser delegate_id (rules password delegate_id)

  -- The number of users deleted, and the table after it.
  unfoldable pub revoke_delegate : Text → State → ℕ × State
  revoke_delegate delegate_id s =
      (elim (rules_of s delegate_id) [ none ↦ 0 | some _ ↦ 1 ], deluser delegate_id s)

  unfoldable pub delete_all : List Text → State → State
  delete_all [] s = s
  delete_all (u ∷ us) s = delete_all us (deluser u s)

  unfoldable pub set_all : (Text → Text) → List Text → State → State
  set_all password [] s = s
  set_all password (u ∷ us) s = set_all password us (setuser u (rules (password u) u) s)

  -- `existing - active`
  unfoldable pub stale_users : List Text → State → List Text
  stale_users active s = keep (λ u. not (contains u active)) (keep is_delegate_user (users s))

  unfoldable pub reconcile : (Text → Text) → List Text → State → State
  unfolding stale_users
  reconcile password active s = set_all password active (delete_all (stale_users active s) s)
