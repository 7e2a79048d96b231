-- ===== src/Sender/Accepted.antt =====
-- What `parse_args` of libst2110rx/tools/st2110tx-test.c accepts.
use Prim.Native.String.{String}
use mathlib.Core.Option.{map}
use obs_st.Base.{
  some, true, List, ◌<◌, ◌%◌, ℕ, ◌≡◌, Bool, ◌^◌, ◌⊎◌, arith, ◌≤◌, none, refl, Option, leb, subst,
  u16, not, ◌==◌, ◌&&◌, ◌||◌,
}
use obs_st.Sender.Arguments.{
  TxConfig, number, option_of, parse_u32, parse_args, defaults, set_burst,
}
use obs_st.Arguments.{
  Strtoul, Keeps, Satisfies, parse-Satisfies, takes, Keeps-if, flag, help, unknown,
}

pub record IsValid (cfg : TxConfig) : Type 0 where
  pub port_range : cfg.port < 65536
  pub width_nonzero : 0 < cfg.width
  pub width_even : cfg.width % 2 ≡ 0
  pub width_range : cfg.width < 2 ^ 32
  pub height_nonzero : 0 < cfg.height
  pub height_range : cfg.height < 2 ^ 32
  pub fps_nonzero : 0 < cfg.fps
  pub fps_range : cfg.fps < 2 ^ 32
  pub count_range : cfg.count < 2 ^ 32
  pub mtu_sizes : (cfg.mtu ≡ 1500) ⊎ (cfg.mtu ≡ 9000)
  pub drop_range : cfg.drop_pct ≤ 100

module _ (strtoul : Strtoul) where
  number-range :
      (fits : ℕ → Bool) (s : String) (v : ℕ)
      → number strtoul fits s ≡ some v
      → (v < 2 ^ 32) × (fits v ≡ true)
  unfolding number parse_u32
  number-range fits s v h = ground arith

  map-some :
      (f : ℕ → TxConfig) (o : Option ℕ) (cfg' : TxConfig)
      → map f o ≡ some cfg'
      → (v : ℕ) × (o ≡ some v) × (f v ≡ cfg')
  map-some f none cfg' h = absurd cc
  map-some f (some v) cfg' h = (v, refl, cc)

  -- An option that takes a number keeps what holds of each number that is accepted.
  set-Keeps :
      (fits : ℕ → Bool) (put : ℕ → TxConfig → TxConfig)
      → ((v : ℕ) (cfg : TxConfig) → v < 2 ^ 32 → fits v ≡ true → IsValid cfg → IsValid (put v cfg))
      → Keeps IsValid (takes (λ s cfg. map (λ v. put v cfg) (number strtoul fits s)))
  unfolding Keeps
  set-Keeps fits put good s cfg cfg' valid h =
      let (v, e, e') = map-some (λ v. put v cfg) (number strtoul fits s) cfg' h in
      let (range, fit) = number-range fits s v e in subst IsValid e' (good v cfg range fit valid)

  -- An option that stores a text, or no value, keeps the ranges.
  text-Keeps :
      (put : String → TxConfig → TxConfig)
      → ((s : String) (cfg : TxConfig) → IsValid cfg → IsValid (put s cfg))
      → Keeps IsValid (takes (λ s cfg. some (put s cfg)))
  unfolding Keeps
  text-Keeps put good s cfg cfg' valid h =
      let e : put s cfg ≡ cfg' = cc in subst IsValid e (good s cfg valid)

  burst-Keeps : Keeps IsValid (flag (set_burst strtoul))
  unfolding Keeps
  burst-Keeps cfg valid = ground (arith, valid)

  plain-Keeps : Keeps IsValid help × Keeps IsValid unknown
  unfolding Keeps
  plain-Keeps = (tt, tt)

  option_of-Keeps : (arg : String) → Keeps IsValid (option_of strtoul arg)
  unfolding option_of
  option_of-Keeps arg = Keeps-if IsValid _ _ _ plain-Keeps.0 (
      Keeps-if IsValid _ _ _
        (text-Keeps (λ s cfg. record cfg { addr = s }) λ s cfg valid. ground (arith, valid))
        (Keeps-if IsValid _ _ _
          (set-Keeps (λ v. leb v 65535) (λ v cfg. record cfg { port = u16 v })
            λ v cfg range fit valid. ground (arith, fit, valid))
          (Keeps-if IsValid _ _ _
            (text-Keeps (λ s cfg. record cfg { iface = s }) λ s cfg valid. ground (arith, valid))
            (Keeps-if IsValid _ _ _
              (set-Keeps (λ v. not (v == 0) && v % 2 == 0) (λ v cfg. record cfg { width = v })
                λ v cfg range fit valid. ground (arith, fit, valid))
              (Keeps-if IsValid _ _ _
                (set-Keeps (λ v. not (v == 0)) (λ v cfg. record cfg { height = v })
                  λ v cfg range fit valid. ground (arith, fit, valid))
                (Keeps-if IsValid _ _ _
                  (set-Keeps (λ v. not (v == 0)) (λ v cfg. record cfg { fps = v })
                    λ v cfg range fit valid. ground (arith, fit, valid))
                  (Keeps-if IsValid _ _ _
                    (set-Keeps (λ v. true) (λ v cfg. record cfg { count = v })
                      λ v cfg range fit valid. ground (arith, fit, valid))
                    (Keeps-if IsValid _ _ _
                      (set-Keeps (λ v. v == 1500 || v == 9000) (λ v cfg. record cfg { mtu = v })
                        λ v cfg range fit valid. ground (arith, fit, valid))
                      (Keeps-if IsValid _ _ _
                        (set-Keeps (λ v. leb v 100) (λ v cfg. record cfg { drop_pct = v })
                          λ v cfg range fit valid. ground (arith, fit, valid))
                        (Keeps-if IsValid _ _ _ burst-Keeps plain-Keeps.1))))))))))

  -- Whatever the command line, and whatever `strtoul` says of its numbers: a configuration that
  -- `parse_args` accepts has a port of 16 bits, an even width, a height and a rate that are not 0,
  -- an MTU of 1500 or 9000 and a loss of at most 100 percent, and all its numbers have 32 bits.
  pub parse_args-IsValid : (argv : List String) → Satisfies IsValid (parse_args strtoul argv)
  parse_args-IsValid argv =
      parse-Satisfies IsValid (option_of strtoul) option_of-Keeps argv defaults (ground arith)
