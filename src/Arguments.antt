-- ===== src/Arguments.antt =====
-- What the command lines of libst2110rx/tools have in common: `strtoul` and the loop over the arguments.
use Prim.Native.Char.{code}
use Prim.Native.String.{String}
use text.Mathlib.Text.{◌==◌}
use obs_st.Base.{
  none, some, Bytes, ℕ, Bool, List, Option, [], ◌∷◌, ◌≡◌, refl, subst, true, false, if◌then◌else◌,
}

-- The octets of a C string.
abbrev pub codes : String → Bytes
codes String.[] = []
codes (String.◌∷◌ c s) = code c ∷ codes s

-- `strcmp(a, b) == 0`
abbrev pub same_text : String → String → Bool
same_text a b = a == b

-- What `strtoul(s, &end, 10)` says of a string: the number, an `unsigned long` of 64 bits, and
-- whether `end` is `s` or shows the final zero.
pub record Parsed : Type 0 where
  pub value : ℕ
  pub at_start : Bool
  pub at_end : Bool

abbrev pub Strtoul : Type 0
Strtoul = String → Parsed

-- What an argument asks for. `takes` needs another argument behind it, which it may refuse.
pub data Opt (A : Type 0) : Type 0 where
  help unknown : Opt A
  flag : (A → A) → Opt A
  takes : (String → A → Option A) → Opt A

-- What a command line comes to.
pub data Outcome (A : Type 0) : Type 0 where
  proceed : A → Outcome A
  shows_help refused : Outcome A

module _ {A : Type 0} (option_of : String → Opt A) where
  -- `for (i = 1; i < argc; ++i)`, over the arguments that are left. An option that needs a value and is
  -- the last argument is unknown.
  unfoldable pub parse : List String → A → Outcome A
  parse [] a = proceed a
  parse (arg ∷ []) a = elim (option_of arg) [
    | help ↦ shows_help
    | flag set ↦ proceed (set a)
    | takes set ↦ refused
    | unknown ↦ refused
  ]
  parse (arg ∷ value ∷ rest) a = elim (option_of arg) [
    | help ↦ shows_help
    | flag set ↦ parse (value ∷ rest) (set a)
    | takes set ↦ elim (set value a) [ none ↦ refused | some a' ↦ parse rest a' ]
    | unknown ↦ refused
  ]

  pub parse-takes :
      (arg value : String) (rest : List String) (a a' : A) (set : String → A → Option A)
      → option_of arg ≡ takes set
      → set value a ≡ some a'
      → parse (arg ∷ value ∷ rest) a ≡ parse rest a'
  unfolding parse
  parse-takes arg value rest a a' set e e' = rw (parse, e, e') refl

-- What holds of the value that a command line comes to, if it comes to one.
abbrev pub Satisfies : {A : Type 0} → (A → Type 0) → Outcome A → Type 0
Satisfies P (proceed a) = P a
Satisfies P shows_help = Unit
Satisfies P refused = Unit

module _ {A : Type 0} (P : A → Type 0) where
  -- An option keeps `P` where it is accepted.
  unfoldable pub Keeps : Opt A → Type 0
  Keeps help = Unit
  Keeps unknown = Unit
  Keeps (flag set) = (a : A) → P a → P (set a)
  Keeps (takes set) = (s : String) (a a' : A) → P a → set s a ≡ some a' → P a'

  pub Keeps-if : (b : Bool) (x y : Opt A) → Keeps x → Keeps y → Keeps (if b then x else y)
  Keeps-if true x y p q = p
  Keeps-if false x y p q = q

  module _ (option_of : String → Opt A) (keeps : (arg : String) → Keeps (option_of arg)) where
    takes-Keeps :
        (arg value : String) (rest : List String) (set : String → A → Option A) (a : A)
        → option_of arg ≡ takes set
        → P a
        → ((a' : A) → P a' → Satisfies P (parse option_of rest a'))
        → (o : Option A) → set value a ≡ o
        → Satisfies P (elim o [ none ↦ refused | some a' ↦ parse option_of rest a' ])
    unfolding Keeps
    takes-Keeps arg value rest set a e p next none e' = tt
    takes-Keeps arg value rest set a e p next (some a') e' =
        next a' (subst Keeps e (keeps arg) value a a' p e')

    start-Keeps : (a : A) → P a → Satisfies P (parse option_of [] a)
    unfolding parse
    start-Keeps a p = p

    last-Keeps :
        (arg : String) (a : A) (o : Opt A)
        → option_of arg ≡ o
        → P a
        → Satisfies P (parse option_of (arg ∷ []) a)
    unfolding parse Keeps
    last-Keeps arg a help e p = rw (parse, e) tt
    last-Keeps arg a unknown e p = rw (parse, e) tt
    last-Keeps arg a (takes set) e p = rw (parse, e) tt
    last-Keeps arg a (flag set) e p = rw (parse, e) (subst Keeps e (keeps arg) a p)

    step-Keeps :
        (arg value : String) (rest : List String) (a : A) (o : Opt A)
        → option_of arg ≡ o
        → P a
        → ((a' : A) → P a' → Satisfies P (parse option_of (value ∷ rest) a'))
        → ((a' : A) → P a' → Satisfies P (parse option_of rest a'))
        → Satisfies P (parse option_of (arg ∷ value ∷ rest) a)
    unfolding parse Keeps
    step-Keeps arg value rest a help e p from_value from_rest = rw (parse, e) tt
    step-Keeps arg value rest a unknown e p from_value from_rest = rw (parse, e) tt
    step-Keeps arg value rest a (flag set) e p from_value from_rest =
        rw (parse, e) (from_value (set a) (subst Keeps e (keeps arg) a p))
    step-Keeps arg value rest a (takes set) e p from_value from_rest =
        rw (parse, e) (takes-Keeps arg value rest set a e p from_rest (set value a) refl)

    -- The loop keeps what its options keep.
    pub parse-Satisfies : (argv : List String) (a : A) → P a → Satisfies P (parse option_of argv a)
    parse-Satisfies [] a p = start-Keeps a p
    parse-Satisfies (arg ∷ []) a p = last-Keeps arg a (option_of arg) refl p
    parse-Satisfies (arg ∷ value ∷ rest) a p =
        step-Keeps arg value rest a (option_of arg) refl p (parse-Satisfies (value ∷ rest))
          (parse-Satisfies rest)
