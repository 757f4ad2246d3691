-- ===== src/Files.antt =====
-- A directory of files of the program, by their names: what `open`, `os.path.exists` and `write` do
-- in it. A computation on a state that may raise keeps what it did before it raised.
use delegate_implementation.Base.{
  Text, text_eq, Option, none, some, Bool, true, false, if◌then◌else◌, ◌≡◌, refl, ap, ◌||◌, arith,
  Result, ok, raise, os_error, or_raise,
}

abbrev pub Directory : Type 0
Directory = Text → Option Text

abbrev pub is_some : Option Text → Bool
is_some none = false
is_some (some t) = true

-- `os.path.exists(path)`
abbrev pub exists : Text → Directory → Bool
exists name dir = is_some (dir name)

-- `open(path, "w")` and a `write` of the whole content
abbrev pub write : Text → Text → Directory → Directory
write name content dir other = if text_eq name other then some content else dir other

-- `open(path).read()`; `FileNotFoundError` is an `OSError`.
abbrev pub read : Text → Directory → Result Text
read name dir = or_raise (dir name) os_error

abbrev pub Io : Type 0 → Type 0 → Type 0
Io S A = S → Result A × S

infixl 5 ◌>>=◌ ◌>>◌
abbrev pub ◌>>=◌ : {S A B : Type 0} → Io S A → (A → Io S B) → Io S B
◌>>=◌ m f s = let (r, s') = m s in elim r [ ok a ↦ f a s' | raise e ↦ (raise e, s') ]

abbrev pub ◌>>◌ : {S A B : Type 0} → Io S A → Io S B → Io S B
m >> k = m >>= λ _. k

abbrev pub modify : {S : Type 0} → (S → S) → Io S (Unit {0})
modify f s = (ok tt, f s)

-- A write keeps the files that are there, and puts its own.
pub exists-write :
    (name other content : Text) (dir : Directory)
    → exists other (write name content dir) ≡ (text_eq name other || exists other dir)
exists-write name other content dir = ground arith

-- Inversion of a computation that returns.
pub >>=-eq-ok :
    {S A B : Type 0} (m : Io S A) (f : A → Io S B) (s t : S) (b : B)
    → (m >>= f) s ≡ (ok b, t)
    → (a : A) × (s' : S) × (m s ≡ (ok a, s')) × (f a s' ≡ (ok b, t))
>>=-eq-ok {S} {A} {B} m f s t b h = bind_step (m s) f refl h
  where
    bind_step :
        (r : Result A × S) (f : A → Io S B)
        → m s ≡ r
        → (elim r.0 [ ok a ↦ f a r.1 | raise e ↦ (raise e, r.1) ]) ≡ (ok b, t)
        → (a : A) × (s' : S) × (m s ≡ (ok a, s')) × (f a s' ≡ (ok b, t))
    bind_step (ok a, s') f e h = (a, s', e, h)
    bind_step (raise x, s') f e h = absurd (ground arith)

pub >>=_ok :
    {S A B : Type 0} (m : Io S A) (f : A → Io S B) (s s' : S) (a : A)
    → m s ≡ (ok a, s')
    → (m >>= f) s ≡ f a s'
>>=_ok {S} {A} {B} m f s s' a h =
    ap
      (λ (r : Result A × S). elim r.0 as (λ _. Result B × S) [
        | ok a ↦ f a r.1
        | raise e ↦ (raise e, r.1)
      ])
      h
