-- ===== src/Sender/Arguments.antt =====
-- The command line of libst2110rx/tools/st2110tx-test.c.
use Prim.Native.String.{String}
use mathlib.Core.Option.{map}
use obs_st.Base.{
  none, some, true, false, ℕ, Bool, List, Option, if◌then◌else◌, leb, not, u16, ◌==◌, ◌&&◌, ◌||◌,
  ltb, ◌%◌,
}
use obs_st.Arguments.{unknown, Strtoul, Opt, Outcome, parse, same_text, help, takes, flag}

-- `tx_config_t`
pub record TxConfig : Type 0 where
  pub addr : String
  pub port : ℕ
  pub iface : String
  pub width : ℕ
  pub height : ℕ
  pub fps : ℕ
  pub count : ℕ
  pub mtu : ℕ
  pub drop_pct : ℕ
  pub burst : Bool

abbrev pub defaults : TxConfig
defaults = record {
  addr = "239.1.0.1";
  port = 20000;
  iface = "0.0.0.0";
  width = 1920;
  height = 1080;
  fps = 30;
  count = 0;
  mtu = 1500;
  drop_pct = 0;
  burst = false;
}

module _ (strtoul : Strtoul) where
  -- `parse_u32` at a string, with a place for the result; no result is -1.
  unfoldable pub parse_u32 : String → Option ℕ
  parse_u32 s =
      let parsed = strtoul s in
      if parsed.at_start || not parsed.at_end || ltb 0xFFFFFFFF parsed.value
      then none
      else some parsed.value

  -- A value that `parse_u32` and a test accept.
  unfoldable pub number : (ℕ → Bool) → String → Option ℕ
  number fits s = elim (parse_u32 s) [ none ↦ none | some v ↦ if fits v then some v else none ]

  abbrev pub set_addr : String → TxConfig → Option TxConfig
  set_addr s cfg = some (record cfg { addr = s })

  abbrev pub set_port : String → TxConfig → Option TxConfig
  set_port s cfg = map (λ v. record cfg { port = u16 v }) (number (λ v. leb v 65535) s)

  abbrev pub set_iface : String → TxConfig → Option TxConfig
  set_iface s cfg = some (record cfg { iface = s })

  abbrev pub set_width : String → TxConfig → Option TxConfig
  set_width s cfg = map (λ v. record cfg { width = v }) (number (λ v. not (v == 0) && v % 2 == 0) s)

  abbrev pub set_height : String → TxConfig → Option TxConfig
  set_height s cfg = map (λ v. record cfg { height = v }) (number (λ v. not (v == 0)) s)

  abbrev pub set_fps : String → TxConfig → Option TxConfig
  set_fps s cfg = map (λ v. record cfg { fps = v }) (number (λ v. not (v == 0)) s)

  abbrev pub set_count : String → TxConfig → Option TxConfig
  set_count s cfg = map (λ v. record cfg { count = v }) (number (λ v. true) s)

  abbrev pub set_mtu : String → TxConfig → Option TxConfig
  set_mtu s cfg = map (λ v. record cfg { mtu = v }) (number (λ v. v == 1500 || v == 9000) s)

  abbrev pub set_drop_pct : String → TxConfig → Option TxConfig
  set_drop_pct s cfg = map (λ v. record cfg { drop_pct = v }) (number (λ v. leb v 100) s)

  abbrev pub set_burst : TxConfig → TxConfig
  set_burst cfg = record cfg { burst = true }

  -- The chain of comparisons.
  unfoldable pub option_of : String → Opt TxConfig
  option_of arg =
      if same_text arg "--help"
      then help
      else (if same_text arg "--addr"
          then takes set_addr
          else (if same_text arg "--port"
              then takes set_port
              else (if same_text arg "--iface"
                  then takes set_iface
                  else (if same_text arg "--width"
                      then takes set_width
                      else (if same_text arg "--height"
                          then takes set_height
                          else (if same_text arg "--fps"
                              then takes set_fps
                              else (if same_text arg "--count"
                                  then takes set_count
                                  else (if same_text arg "--mtu"
                                      then takes set_mtu
                                      else (if same_text arg "--drop-pct"
                                          then takes set_drop_pct
                                          else (if same_text arg "--burst"
                                              then flag set_burst
                                              else unknown))))))))))

  -- `parse_args` with the arguments behind the program's name.
  abbrev pub parse_args : List String → Outcome TxConfig
  parse_args argv = parse option_of argv defaults
