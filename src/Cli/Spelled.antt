-- ===== src/Cli/Spelled.antt =====
-- The command line of libst2110rx/tools/st2110rx-cli.c, written out and read back.
use Prim.Native.String.{String}
use mathlib.Core.Option.{map}
use obs_st.Base.{
  none, some, true, false, refl, [], Option, ℕ, List, ◌<◌, Bool, ◌^◌, ◌∷◌, ◌≡◌, ltb, arith, leb,
  not, ◌==◌, ◌∙◌, ap,
}
use obs_st.Arguments.{Strtoul, parse, proceed, parse-takes}
use obs_st.Cli.Arguments.{Args, number, option_of, parse_args, parse_u32, defaults}

-- `strtoul` reads the numbers of 32 bits as `show` writes them, to the end.
abbrev pub Reads : Strtoul → (ℕ → String) → Type 0
Reads strtoul show =
    (n : ℕ) → n < 2 ^ 32 → strtoul (show n) ≡ record { value = n; at_start = false; at_end = true }

-- The arguments that the program accepts.
pub record IsAccepted (a : Args) : Type 0 where
  pub port_range : a.port < 65536
  pub width_nonzero : 0 < a.width
  pub width_range : a.width < 2 ^ 32
  pub height_nonzero : 0 < a.height
  pub height_range : a.height < 2 ^ 32
  pub count_range : a.count < 2 ^ 32
  pub stats_range : a.stats_every < 2 ^ 32

abbrev spell_output : Option String → List String
spell_output none = []
spell_output (some path) = "--output" ∷ path ∷ []

-- Every option with its value.
abbrev pub spell : (ℕ → String) → Args → List String
spell show a =
    "--addr"
    ∷ a.addr
    ∷ "--port"
    ∷ show a.port
    ∷ "--iface"
    ∷ a.iface
    ∷ "--width"
    ∷ show a.width
    ∷ "--height"
    ∷ show a.height
    ∷ "--count"
    ∷ show a.count
    ∷ "--stats"
    ∷ show a.stats_every
    ∷ spell_output a.output_path

module _ (strtoul : Strtoul) (show : ℕ → String) (reads : Reads strtoul show) where
  number-show :
      (fits : ℕ → Bool) (n : ℕ) → n < 2 ^ 32 → fits n ≡ true → number strtoul fits (show n) ≡ some n
  unfolding number parse_u32
  number-show fits n range fit =
      let small : ltb 0xFFFFFFFF n ≡ false = ground arith in
      rw (number, parse_u32, reads n range, small, fit) refl

  parse_output :
      (path : Option String) (a : Args)
      → a.output_path ≡ none
      → parse (option_of strtoul) (spell_output path) a ≡ proceed (record a { output_path = path })
  unfolding parse option_of
  parse_output none a e = rw e refl
  parse_output (some path) a e = refl

  -- A valid list of arguments, written out with every option, is read back as it was, where `strtoul`
  -- reads the numbers of 32 bits as they are written.
  pub parse_args-spell : (a : Args) → IsAccepted a → parse_args strtoul (spell show a) ≡ proceed a
  unfolding option_of
  parse_args-spell a ranges =
      let read = parse-takes (option_of strtoul) in
      let nonzero : ℕ → Bool = λ v. not (v == 0) in
      let any : ℕ → Bool = λ v. true in
      read "--addr" a.addr _ defaults _ _ refl refl
      ∙ read "--port" (show a.port) _ _ _ _ refl (
          ap (map _) (
            number-show (λ v. leb v 65535) a.port (omega (arith, ranges.port_range))
              (ground (arith, ranges.port_range))))
      ∙ read "--iface" a.iface _ _ _ _ refl refl
      ∙ read "--width" (show a.width) _ _ _ _ refl (
          ap (map _)
            (number-show nonzero a.width ranges.width_range (ground (arith, ranges.width_nonzero))))
      ∙ read "--height" (show a.height) _ _ _ _ refl (
          ap (map _) (
            number-show nonzero a.height ranges.height_range
              (ground (arith, ranges.height_nonzero))))
      ∙ read "--count" (show a.count) _ _ _ _ refl
          (ap (map _) (number-show any a.count ranges.count_range refl))
      ∙ read "--stats" (show a.stats_every) _ _ _ _ refl
          (ap (map _) (number-show any a.stats_every ranges.stats_range refl))
      ∙ parse_output a.output_path _ refl
