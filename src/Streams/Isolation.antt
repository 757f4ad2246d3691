-- ===== src/Streams/Isolation.antt =====
-- Who can name what: the keys of two delegates, of two executions and of the four streams of one
-- execution never meet, and a key under a delegate's prefix is that delegate's.
use delegate_implementation.Base.{
  ℕ, Text, codes, IsPrefix, All, [], ◌∷◌, ◌++◌, ◌≡◌, ◌≢◌, ◌↔◌, refl, ap, sym, ◌∙◌, arith,
  append_assoc,
}
use delegate_implementation.Streams.{
  StreamKeys, delegate_prefix, stream_keys, global_execution_events_stream,
}

-- No `:` in it; a canonical UUID is such a text.
abbrev pub HasNoColon : Text → Type 0
HasNoColon = All (λ c. c ≢ b':')

-- Which of the four streams of an execution.
pub data Stream : Type 0 where
  events log status output : Stream

abbrev pub key_of : StreamKeys → Stream → Text
key_of keys events = keys.events
key_of keys log = keys.log
key_of keys status = keys.status
key_of keys output = keys.output

-- The last part of a key.
abbrev suffix : Stream → Text
suffix events = codes "events"
suffix log = codes "log"
suffix status = codes "status"
suffix output = codes "output"

append_cancel_left : (p : Text) {s t : Text} → p ++ s ≡ p ++ t → s ≡ t
append_cancel_left [] h = h
append_cancel_left (x ∷ p) h = append_cancel_left p (cc)

-- Two texts that agree up to their first colon.
colon_unique :
    (a b : Text) {s t : Text}
    → HasNoColon a
    → HasNoColon b
    → a ++ (b':' ∷ s) ≡ b ++ (b':' ∷ t)
    → (a ≡ b) × (s ≡ t)
colon_unique [] [] ha hb h = (refl, cc)
colon_unique [] (y ∷ b) ha hb h = absurd (hb.0 (cc))
colon_unique (x ∷ a) [] ha hb h = absurd (ha.0 (cc))
colon_unique (x ∷ a) (y ∷ b) {s} {t} ha hb h =
    let tails : a ++ (b':' ∷ s) ≡ b ++ (b':' ∷ t) = cc in
    let (same, rest) = colon_unique a b ha.1 hb.1 tails in (cc, rest)

-- How the four keys are spelled, from the right.
key_of_lem :
    (eid did : Text) (k : Stream)
    → key_of (stream_keys eid did) k
      ≡ codes "delegate:" ++ (did ++ (codes ":execution:" ++ (eid ++ (b':' ∷ suffix k))))
unfolding stream_keys delegate_prefix
key_of_lem eid did events = simp append_assoc
key_of_lem eid did log = simp append_assoc
key_of_lem eid did status = simp append_assoc
key_of_lem eid did output = simp append_assoc

suffix-injective : (j k : Stream) → suffix j ≡ suffix k → j ≡ k
suffix-injective events events h = refl
suffix-injective log log h = refl
suffix-injective status status h = refl
suffix-injective output output h = refl
suffix-injective _ _ h = ground arith

-- A key that lies under one delegate's prefix and is built under another's: they are one delegate.
pub delegate_prefix-injective :
    (a b rest : Text)
    → HasNoColon a
    → HasNoColon b
    → IsPrefix (delegate_prefix a) (delegate_prefix b ++ rest)
    → a ≡ b
unfolding delegate_prefix
delegate_prefix-injective a b rest ha hb (r, e) =
    (colon_unique a b ha hb (append_cancel_left (codes "delegate:") (simp append_assoc at e))).0

-- Every stream of an execution lies under the prefix of its delegate, the only keys that the
-- delegate's Redis user may touch beside the global stream; and it lies under no other delegate's.
pub key_of-prefix :
    (eid did : Text) (k : Stream) → IsPrefix (delegate_prefix did) (key_of (stream_keys eid did) k)
unfolding delegate_prefix
key_of-prefix eid did k =
    (codes "execution:" ++ (eid ++ (b':' ∷ suffix k)), rw key_of_lem (simp append_assoc))

pub stream_keys-isolated :
    (eid did other : Text) (k : Stream)
    → HasNoColon did
    → HasNoColon other
    → IsPrefix (delegate_prefix other) (key_of (stream_keys eid did) k) ↔ (other ≡ did)
stream_keys-isolated eid did other k hd ho = (
  λ p. let (r, e) = key_of-prefix eid did k in delegate_prefix-injective other did r ho hd (rw e p),
  λ e. rw e (key_of-prefix eid did k),
)

-- Two keys are equal only if they are the same stream of the same execution of the same delegate.
pub stream_keys-injective :
    (e e' d d' : Text) (k k' : Stream)
    → HasNoColon e
    → HasNoColon e'
    → HasNoColon d
    → HasNoColon d'
    → key_of (stream_keys e d) k ≡ key_of (stream_keys e' d') k'
    → (e ≡ e') × (d ≡ d') × (k ≡ k')
stream_keys-injective e e' d d' k k' he he' hd hd' h =
    let (same, rest) =
      colon_unique d d' hd hd' (
        append_cancel_left (codes "delegate:")
          (sym (key_of_lem e d k) ∙ h ∙ key_of_lem e' d' k')) in
    let (exec, last) = colon_unique e e' he he' (append_cancel_left (codes "execution:") rest) in
    (exec, same, suffix-injective k k' last)

abbrev head : Text → ℕ
head [] = 0
head (c ∷ s) = c

-- The global announcement stream is no delegate's key.
pub global-not-prefixed : (a : Text) → ¬ IsPrefix (delegate_prefix a) global_execution_events_stream
unfolding delegate_prefix
global-not-prefixed a (r, e) = omega (arith, ap head e)

-- The four streams of one execution are four keys.
pub stream_keys-distinct :
    (eid did : Text) (j k : Stream)
    → key_of (stream_keys eid did) j ≡ key_of (stream_keys eid did) k
    → j ≡ k
stream_keys-distinct eid did j k h =
    let spelled = sym (key_of_lem eid did j) ∙ h ∙ key_of_lem eid did k in
    let after_delegate = append_cancel_left did (append_cancel_left (codes "delegate:") spelled) in
    let after_execution =
      append_cancel_left eid (append_cancel_left (codes ":execution:") after_delegate) in
    suffix-injective j k (append_cancel_left (b':' ∷ []) after_execution)
