-- ===== src/Tests/Offers.antt =====
-- Clocks and the default settings of the OBS source at concrete values.
use obs_st.Base.{refl, ◌<◌, ◌≤◌, ◌^◌, arith, inl}
use obs_st.Stats.Clock.{get_time_us, counter, counts, get_time_us-IsOrdered, counter-Wraps}
use obs_st.Resources.{posix, nothing}
use obs_st.ObsSource.{st2110_defaults}
use obs_st.ObsSource.Page.{IsOffered, st2110_get_properties}
use obs_st.ObsSource.Offered.{IsTaken, IsGenerous, offered-IsTaken, MakesIfEven}
use obs_st.Tests.Data.{whole_numbers}
use obs_st.Tests.Source.{world}
use obs_st.Tests.Lifecycle.{grants}
use obs_st.ObsSource.Lifecycle.{config_of}

get_time_us-IsOrdered_example :
    (get_time_us (counter 10000000 10000000) ≤ get_time_us (counter 25000000 10000000))
    × (get_time_us (counter 25000000 10000000) < 2 ^ 63)
get_time_us-IsOrdered_example =
    get_time_us-IsOrdered (counts (omega arith)) (omega arith) (omega arith)

-- A counter of ten million ticks a second, 21 days and 8 hours behind its start.
counter-Wraps_example :
    get_time_us (counter 18446744083709 10000000) < get_time_us (counter 18446744063709 10000000)
counter-Wraps_example =
    counter-Wraps 18446744063709 18446744083709 10000000 (omega arith) (omega arith) (omega arith)
      (omega arith)

defaults-IsOffered : IsOffered st2110_get_properties st2110_defaults
defaults-IsOffered = (
  tt,
  (
    (5000, refl, omega arith, omega arith),
    (
      tt,
      (
        (1920, refl, omega arith, omega arith),
        (
          (1080, refl, omega arith, omega arith),
          ((128, refl, omega arith, omega arith), ((1, refl, inl refl), tt)),
        ),
      ),
    ),
  ),
)

grants-IsGenerous : IsGenerous grants
grants-IsGenerous = record {
  object = refl;
  packet = λ i. 7;
  has_packet = refl;
  convert = λ i. 9;
  has_convert = refl;
  fill = refl;
  deliver = refl;
}

offered-IsTaken_example :
    IsTaken world posix st2110_defaults
    × MakesIfEven whole_numbers
        (config_of world posix st2110_defaults)
        nothing
        grants
        grants-IsGenerous
offered-IsTaken_example =
    offered-IsTaken world posix st2110_defaults grants nothing defaults-IsOffered refl
      grants-IsGenerous
