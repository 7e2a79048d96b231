-- ===== src/ObsSource/Offered.antt =====
-- What becomes of settings that the page offers.
use obs_st.Base.{
  ℕ, ◌*◌, ◌%◌, ◌^◌, ◌<◌, ◌≡◌, ◌⊎◌, arith, true, some, ok, pos, false, is_null, refl, ◌==◌, ap, none,
  Option, ◌≤◌, Bytes, inl, inr, Bool-cases,
}
use obs_st.Types.{uyvy, ycbcr422_10bit, Config, success}
use obs_st.Stats.{Floats}
use obs_st.Resources.{Held, Platform}
use obs_st.Receiver.{Grants, zero_assembler, new_rx}
use obs_st.Receiver.Create.{st2110rx_create, build, adopt, take_block}
use obs_st.ObsSource.{Settings}
use obs_st.ObsSource.Callback.{World}
use obs_st.ObsSource.Page.{IsOffered, st2110_get_properties}
use obs_st.Assembler.Init.{Acceptable, init-IsReady, init-success_iff}
use obs_st.Assembler.{rx_assembler_init, Assembler}
use obs_st.ObsSource.Lifecycle.{config_of, is_blank}

-- Every block is granted.
pub record IsGenerous (grants : Grants) : Type 0 where
  pub object : grants.object ≡ true
  pub packet : ℕ → ℕ
  pub has_packet : grants.packet ≡ some packet
  pub convert : ℕ → ℕ
  pub has_convert : grants.convert ≡ some convert
  pub fill : grants.fill ≡ true
  pub deliver : grants.deliver ≡ true

module _ {F : Floats} {X : Type 0} (config : Config X) (held : Held) (grants : Grants)
    (generous : IsGenerous grants) where
  pub create-eq-some :
      Acceptable config.width config.height config.input_fmt true true
      → is_null config.multicast_addr ≡ false
      → is_null config.frame_cb ≡ false
      → (a : Assembler) × (st2110rx_create F grants (some config) held
          ≡ ok (
            some (new_rx F config generous.packet generous.convert a),
            take_block (take_block (take_block (take_block (take_block held)))),
          ))
  unfolding st2110rx_create build adopt
  create-eq-some fit named has_cb =
      let accepted =
        (init-success_iff zero_assembler config.width config.height config.input_fmt true true).1
          fit in
      let (a, e, _, _, _, _, _, _, _, _) =
        init-IsReady zero_assembler config.width config.height config.input_fmt true true
          accepted in
      let made : rx_assembler_init (some zero_assembler) config.width config.height config.input_fmt
            true true
          ≡ (some a, success) =
        cc in
      let wide : (config.width == 0) ≡ false = ground arith in
      let high : (config.height == 0) ≡ false = ground arith in
      let even : (config.width % 2 == 0) ≡ true = ground arith in
      (
        a,
        rw
            (
              named, has_cb, wide, high, even, generous.object, generous.has_packet,
              generous.has_convert, generous.fill, generous.deliver, made,
            )
            refl,
      )

-- A receiver if the width is even, and NULL with nothing held if it is odd.
abbrev pub MakesIfEven :
    (F : Floats) {X : Type 0} (config : Config X) (held : Held) (grants : Grants)
    → IsGenerous grants
    → Type 0
MakesIfEven F config held grants generous =
    ((config.width % 2 ≡ 0)
      × (a : Assembler) × (st2110rx_create F grants (some config) held
          ≡ ok (
            some (new_rx F config generous.packet generous.convert a),
            take_block (take_block (take_block (take_block (take_block held)))),
          )))
    ⊎ ((config.width % 2 ≡ 1) × (st2110rx_create F grants (some config) held ≡ ok (none, held)))

-- A configuration that has what the settings say.
pub record IsTaken {F : Floats} (world : World F) (p : Platform) (settings : Settings)
    : Type 0 where
  pub port : pos (config_of world p settings).port ≡ settings.port
  pub width : pos (config_of world p settings).width ≡ settings.width
  pub height : pos (config_of world p settings).height ≡ settings.height
  pub mebibytes : ℕ
  pub has_mebibytes : settings.socket_buffer_mb ≡ pos mebibytes
  pub socket_buffer : (config_of world p settings).socket_buffer_size ≡ mebibytes * 2 ^ 20
  pub socket_buffer_range : (config_of world p settings).socket_buffer_size < 2 ^ 31
  pub input_fmt :
      ((config_of world p settings).input_fmt ≡ uyvy)
      ⊎ ((config_of world p settings).input_fmt ≡ ycbcr422_10bit)
  pub dimensions :
      (16 ≤ (config_of world p settings).width)
      × ((config_of world p settings).width ≤ 8192)
      × (16 ≤ (config_of world p settings).height)
      × ((config_of world p settings).height ≤ 4320)

taken :
    {F : Floats} (world : World F) (p : Platform) (settings : Settings)
    → IsOffered st2110_get_properties settings
    → IsTaken world p settings
taken world p settings
      (
        a,
        (
          (port, e1, l1, m1),
          (
            b,
            (
              (width, e2, l2, m2),
              ((height, e3, l3, m3), ((mb, e4, l4, m4), ((depth, e5, one_of), u))),
            ),
          ),
        ),
      ) =
    let port_lem : settings.port ≡ pos port = cc in
    let width_lem : settings.width ≡ pos width = cc in
    let height_lem : settings.height ≡ pos height = cc in
    let mb_lem : settings.socket_buffer_mb ≡ pos mb = cc in
    let depth_lem : settings.input_depth ≡ pos depth = cc in
    record {
      port = rw port_lem (ap pos (omega arith));
      width = rw width_lem (ap pos (omega arith));
      height = rw height_lem (ap pos (omega arith));
      mebibytes = mb;
      has_mebibytes = mb_lem;
      socket_buffer = rw mb_lem (omega arith);
      socket_buffer_range = rw mb_lem (omega arith);
      input_fmt = rw depth_lem (ground arith);
      dimensions = rw (width_lem, height_lem) (omega arith);
    }

named : (addr : Option Bytes) → is_blank addr ≡ false → is_null addr ≡ false
named none h = cc
named (some name) h = refl

-- Settings that the page of properties offers, with an address that is not blank, become a configuration
-- with the same port, width and height, a socket buffer of as many mebibytes, which is below 2 ^ 31
-- octets, and one of the two formats that the receiver knows. Where every block is granted,
-- st2110rx_create makes a receiver of it if the width is even, and returns NULL, with nothing held, if
-- it is odd; the page's step of 2 does not exclude an odd number.
pub offered-IsTaken :
    {F : Floats} (world : World F) (p : Platform) (settings : Settings) (grants : Grants)
    (held : Held)
    → IsOffered st2110_get_properties settings
    → is_blank settings.multicast_addr ≡ false
    → (generous : IsGenerous grants)
    → IsTaken world p settings × MakesIfEven F (config_of world p settings) held grants generous
unfolding st2110rx_create
offered-IsTaken {F} world p settings grants held offered address generous =
    let config = config_of world p settings in
    let t = taken world p settings offered in
    let has_name = named settings.multicast_addr address in
    let wide : (config.width == 0) ≡ false = ground (arith, t.dimensions) in
    let high : (config.height == 0) ≡ false = ground (arith, t.dimensions) in
    (
      t,
      elim (Bool-cases (config.width % 2 == 0)) [
        | inl even ↦
            let (a, made) =
              create-eq-some config held grants generous (ground (arith, t.dimensions, t.input_fmt))
                has_name refl in
            inl (ground arith, a, made)
        | inr odd ↦ inr (ground arith, rw (has_name, wide, high, odd) refl)
      ],
    )
