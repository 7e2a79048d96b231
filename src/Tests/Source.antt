-- ===== src/Tests/Source.antt =====
-- The OBS source at settings of one line of two pixels.
use obs_st.Base.{none, true, refl, [], inl, pos, List, Returns, arith, ◌+◌, ◌∷◌, ◌≡◌}
use obs_st.Tests.Lifecycle.{grants, sevens}
use obs_st.Tests.Data.{whole_numbers, answers, packet, packet-IsBytes}
use obs_st.Types.{uyvy, Frame}
use obs_st.Resources.{windows, posix, nothing}
use obs_st.Receiver.Packet.{failed, datagram}
use obs_st.Stats.{Attempt, Snapshot}
use obs_st.ObsSource.{Ctx, Settings, Source, st2110_defaults}
use obs_st.ObsSource.Lifecycle.{System, st2110_update, zero_source}
use obs_st.ObsSource.Life.{IsHistory, Event, live, received, live-eq-nothing, updated}
use obs_st.ObsSource.Owned.{IsOwned, update-IsOwned}
use obs_st.ObsSource.Callback.{on_frame}
use obs_st.ObsSource.Shown.{IsDelivered, AllUyvy, on_frame-IsDelivered}
use obs_st.ObsSource.Callback.{World}

abbrev pub snapshot : Snapshot whole_numbers
snapshot = record {
  frames_received = 0;
  frames_dropped = 0;
  packets_received = 0;
  packets_lost = 0;
  avg_interpacket_gap_us = 0;
  jitter_us = 0;
}

abbrev pub attempt : Attempt whole_numbers
attempt = record { seq1 = 2; jitter_us = 5; gap_us = 6; seq2 = 2 }

abbrev pub world : World whole_numbers
world = record {
  clock = λ i. 1000 + i;
  rx = λ i. none;
  rounds = λ i j. attempt;
  unset = snapshot;
  joins = true;
}

abbrev settings : Settings
settings = record st2110_defaults { width = pos 2; height = pos 1 }

abbrev system : System
system = record { grants = grants; answers = answers }

abbrev fresh_ctx : Ctx whole_numbers
fresh_ctx = (zero_source world posix).ctx

abbrev pub frame : Frame
frame = record {
  plane = 1 ∷ 2 ∷ 3 ∷ 4 ∷ [];
  linesize = 4;
  width = 2;
  height = 1;
  format = uyvy;
  timestamp_ns = 100000;
  frame_number = 1;
  incomplete = true;
}

abbrev events : List Event
events =
    received (datagram packet 1000 ∷ failed ∷ datagram packet 2000 ∷ [])
    ∷ updated system (record settings { height = pos 0 })
    ∷ received (datagram packet 3000 ∷ [])
    ∷ updated system settings
    ∷ []

events-IsHistory : IsHistory 0 events
events-IsHistory =
    (ground (arith, packet-IsBytes), (sevens, (ground (arith, packet-IsBytes), (sevens, tt))))

live-eq-nothing_example :
    Returns (live world system settings events) (λ r. AllUyvy r.0 × (r.1 ≡ nothing))
live-eq-nothing_example = live-eq-nothing world system settings events refl sevens events-IsHistory

abbrev fresh : Source whole_numbers
fresh = zero_source world windows

fresh-IsOwned : IsOwned world windows 0 fresh (record nothing { blocks = 1 })
fresh-IsOwned = record { owned = inl (refl, refl); shown = tt }

update-IsOwned_example :
    Returns
      (st2110_update world windows system settings fresh (record nothing { blocks = 1 }))
      (λ r. IsOwned world windows 0 r.0 r.1)
update-IsOwned_example =
    update-IsOwned world windows 0 system settings fresh (record nothing { blocks = 1 }) refl sevens
      fresh-IsOwned

on_frame-IsDelivered_example :
    Returns (on_frame world frame fresh_ctx) (IsDelivered world frame fresh_ctx)
on_frame-IsDelivered_example = on_frame-IsDelivered world frame fresh_ctx
