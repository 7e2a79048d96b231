-- ===== src/ObsSource/Page.antt =====
-- The page of settings of obs-plugin/src/obs-st2110-source.c.
use Prim.Native.String.{String}
use obs_st.Base.{ℕ, ◌≤◌, ◌≡◌, ◌⊎◌, List, [], ◌∷◌, Option, none, some, ℤ, pos}
use obs_st.ObsSource.{Settings}

-- The names of the settings, `ST2110_SETTING_ADDR` to `ST2110_SETTING_INPUT_DEPTH`.
pub data Setting : Type 0 where
  addr port iface width height sockbuf_mb input_depth : Setting

-- What `obs_properties_add_text`, `obs_properties_add_int` and `obs_properties_add_list` add.
pub data Property : Type 0 where
  text : (name : Setting) (label : String) → Property
  number : (name : Setting) (label : String) (least most step : ℕ) → Property
  choice : (name : Setting) (label : String) (items : List (String × ℕ)) → Property

-- `st2110_get_properties`
abbrev pub st2110_get_properties : List Property
st2110_get_properties =
    text addr "Multicast group"
    ∷ number port "Port" 1 65535 1
    ∷ text iface "Interface IP (blank = any)"
    ∷ number width "Width" 16 8192 2
    ∷ number height "Height" 16 4320 1
    ∷ number sockbuf_mb "Socket RX buffer (MiB)" 4 1024 4
    ∷ choice input_depth "Input pixel depth" (
        ("8-bit YCbCr 4:2:2 (UYVY pgroup=4)", 1)
        ∷ ("10-bit YCbCr 4:2:2 (RFC 4175 pgroup=5)", 0)
        ∷ [])
    ∷ []

-- The number that a setting has.
abbrev pub number_of : Settings → Setting → Option ℤ
number_of settings addr = none
number_of settings iface = none
number_of settings port = some settings.port
number_of settings width = some settings.width
number_of settings height = some settings.height
number_of settings sockbuf_mb = some settings.socket_buffer_mb
number_of settings input_depth = some settings.input_depth

abbrev pub IsItem : ℕ → List (String × ℕ) → Type 0
IsItem n [] = ⊥
IsItem n (item ∷ items) = (n ≡ item.1) ⊎ IsItem n items

-- A number of the setting that the control takes: in its range, or one of its items. A step moves the
-- arrows of the control; a number typed in need not be one of the steps.
abbrev pub Admits : Settings → Property → Type 0
Admits settings (text name label) = Unit {0}
Admits settings (number name label least most step) =
    (n : ℕ) × (number_of settings name ≡ some (pos n)) × (least ≤ n) × (n ≤ most)
Admits settings (choice name label items) =
    (n : ℕ) × (number_of settings name ≡ some (pos n)) × IsItem n items

abbrev pub IsOffered : List Property → Settings → Type 0
IsOffered [] settings = Unit {0}
IsOffered (property ∷ properties) settings =
    Admits settings property × IsOffered properties settings
