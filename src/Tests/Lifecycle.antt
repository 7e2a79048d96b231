-- ===== src/Tests/Lifecycle.antt =====
-- Starting, stopping and destroying a receiver that has one line of two pixels.
use obs_st.Base.{refl, ◌≡◌, arith, some, ok, Returns, true, ℕ, ◌<◌, subst}
use obs_st.Resources.{Held, windows, nothing}
use obs_st.Socket.{rx_udp_create}
use obs_st.Socket.Open.{Opens, IsOpened, udp_create-Opens}
use obs_st.Types.{ok_status}
use obs_st.Socket.{join_group}
use obs_st.Receiver.Lifecycle.{
  open_socket, with_socket, open_iocp, start_thread, st2110rx_start, st2110rx_stop,
  st2110rx_destroy,
}
use obs_st.Receiver.{Grants}
use obs_st.Receiver.Create.{st2110rx_create}
use obs_st.Receiver.Fresh.{IsNew, create-IsNew}
use obs_st.Receiver.Ownership.{IsAccounted, IsStopped, stop-IsStopped, destroy-eq-nothing}
use obs_st.Receiver.Starting.{IsSettled}
use obs_st.Receiver.Start.{start-IsSettled}
use obs_st.Tests.Data.{whole_numbers, config, answers, net, idle, running}

abbrev idle_held : Held
idle_held = record nothing { blocks = 5 }

idle-IsAccounted : IsAccounted windows 5 idle idle_held
idle-IsAccounted = ground arith

idle-IsStopped : IsStopped windows idle
idle-IsStopped = ground arith

udp_create-Opens_example :
    Returns (rx_udp_create net (some config) idle_held) (Opens (IsOpened net config) idle_held)
udp_create-Opens_example = udp_create-Opens net config idle_held

start-IsSettled_example :
    Returns (st2110rx_start whole_numbers windows answers idle idle_held) (IsSettled windows 5)
start-IsSettled_example =
    start-IsSettled windows 5 answers idle idle_held idle-IsAccounted idle-IsStopped

abbrev running_held : Held
running_held = record {
  blocks = 5;
  sockets = 1;
  memberships = 1;
  startups = 1;
  ports = 1;
  pools = 1;
  threads = 1;
}

running-IsAccounted : IsAccounted windows 5 running running_held
running-IsAccounted = ground arith

start_runs :
    st2110rx_start whole_numbers windows answers idle idle_held
    ≡ ok (running, running_held, ok_status)
unfolding st2110rx_start open_socket rx_udp_create join_group with_socket open_iocp start_thread
start_runs = refl

stop-IsStopped_example :
    Returns
      (st2110rx_stop whole_numbers windows true running running_held)
      (λ r. IsStopped windows r.0 × (r.1 ≡ idle_held))
stop-IsStopped_example = stop-IsStopped windows 5 running running_held refl running-IsAccounted

destroy-eq-nothing_example :
    st2110rx_destroy whole_numbers windows true running running_held ≡ ok nothing
destroy-eq-nothing_example =
    destroy-eq-nothing windows running running_held refl running-IsAccounted

abbrev pub grants : Grants
grants = record {
  object = true;
  packet = some (λ i. 7);
  convert = some (λ i. 9);
  fill = true;
  deliver = true;
}

pub sevens : (f : ℕ → ℕ) → some (λ i. 7) ≡ some f → (i : ℕ) → f i < 256
sevens f e i = let same : (λ i. 7) ≡ f = cc in subst (λ g. g i < 256) same (omega arith)

create-IsNew_example :
    Returns (st2110rx_create whole_numbers grants (some config) nothing) (IsNew config nothing)
create-IsNew_example = create-IsNew config nothing grants sevens
