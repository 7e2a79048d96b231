-- ===== src/Cli/Arguments.antt =====
-- The command line of libst2110rx/tools/st2110rx-cli.c.
use Prim.Native.String.{String}
use mathlib.Core.Option.{map}
use obs_st.Base.{none, some, true, Option, List, ℕ, Bool, if◌then◌else◌, ◌||◌, not, ltb, leb, ◌==◌}
use obs_st.Types.{default_port}
use obs_st.Arguments.{Strtoul, Opt, Outcome, parse, same_text, help, takes, unknown}

pub record Args : Type 0 where
  pub addr : String
  pub iface : String
  pub output_path : Option String
  pub port : ℕ
  pub width : ℕ
  pub height : ℕ
  pub count : ℕ
  pub stats_every : ℕ

abbrev pub defaults : Args
defaults = record {
  addr = "239.1.0.1";
  iface = "0.0.0.0";
  output_path = none;
  port = default_port;
  width = 1920;
  height = 1080;
  count = 0;
  stats_every = 0;
}

module _ (strtoul : Strtoul) where
  -- `parse_u32`, with a place for the result; `none` is NULL, and no result is -1.
  unfoldable pub parse_u32 : Option String → Option ℕ
  parse_u32 none = none
  parse_u32 (some s) =
      let parsed = strtoul s in
      if parsed.at_start || not parsed.at_end || ltb 0xFFFFFFFF parsed.value
      then none
      else some parsed.value

  -- A value that `parse_u32` and a test accept.
  unfoldable pub number : (ℕ → Bool) → String → Option ℕ
  unfolding parse_u32
  number fits s = elim (parse_u32 (some s)) [
    | none ↦ none
    | some v ↦ if fits v then some v else none
  ]

  abbrev pub set_addr : String → Args → Option Args
  set_addr s a = some (record a { addr = s })

  abbrev pub set_iface : String → Args → Option Args
  set_iface s a = some (record a { iface = s })

  abbrev pub set_output : String → Args → Option Args
  set_output s a = some (record a { output_path = some s })

  abbrev pub set_port : String → Args → Option Args
  set_port s a = map (λ v. record a { port = v }) (number (λ v. leb v 65535) s)

  abbrev pub set_width : String → Args → Option Args
  set_width s a = map (λ v. record a { width = v }) (number (λ v. not (v == 0)) s)

  abbrev pub set_height : String → Args → Option Args
  set_height s a = map (λ v. record a { height = v }) (number (λ v. not (v == 0)) s)

  abbrev pub set_count : String → Args → Option Args
  set_count s a = map (λ v. record a { count = v }) (number (λ v. true) s)

  abbrev pub set_stats : String → Args → Option Args
  set_stats s a = map (λ v. record a { stats_every = v }) (number (λ v. true) s)

  -- The chain of comparisons.
  unfoldable pub option_of : String → Opt Args
  option_of arg =
      if same_text arg "--help"
      then help
      else (if same_text arg "--addr"
          then takes set_addr
          else (if same_text arg "--port"
              then takes set_port
              else (if same_text arg "--iface"
                  then takes set_iface
                  else (if same_text arg "--width"
                      then takes set_width
                      else (if same_text arg "--height"
                          then takes set_height
                          else (if same_text arg "--count"
                              then takes set_count
                              else (if same_text arg "--output"
                                  then takes set_output
                                  else (if same_text arg "--stats"
                                      then takes set_stats
                                      else unknown))))))))

  -- The loop of `main` over the arguments behind the program's name.
  abbrev pub parse_args : List String → Outcome Args
  parse_args argv = parse option_of argv defaults
