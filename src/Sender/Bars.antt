-- ===== src/Sender/Bars.antt =====
-- `generate_colorbars_be10`: the picture of the test sender.
use obs_st.Base.{
  ℕ, zero, suc, refl, ◌+◌, ◌*◌, ◌^◌, ◌<◌, ◌≤◌, ◌≡◌, inl, arith, Bytes, IsBytes, length, get_or,
  Returns, Returns-bind, ◌∙◌, dec_lt, ap,
}
use obs_st.Convert.Groups.{pgroup_bits}
use obs_st.Sender.{Bar, bars, bar_of, load_bar, draw_row, draw_rows}
use obs_st.Sender.Groups.{samples_bits, pack_group-IsPacked}

-- The colour of group g.
abbrev pub colour : ℕ → ℕ → Bar
colour groups_per_bar g =
    get_or bars (bar_of groups_per_bar g) (record { cb = 0; luma = 0; cr = 0 })

abbrev pub colour_bits : ℕ → ℕ → ℕ
colour_bits groups_per_bar g =
    let bar = colour groups_per_bar g in samples_bits bar.cb bar.luma bar.cr bar.luma

-- A row of the table, whose samples fit ten bits.
record IsLoaded (i : ℕ) (bar : Bar) : Type 0 where
  is_bar : bar ≡ get_or bars i (record { cb = 0; luma = 0; cr = 0 })
  cb_range : bar.cb < 2 ^ 10
  luma_range : bar.luma < 2 ^ 10
  cr_range : bar.cr < 2 ^ 10

load_bar-IsLoaded : (i : ℕ) → i < 8 → Returns (load_bar i) (IsLoaded i)
unfolding load_bar
load_bar-IsLoaded zero lt = (_, refl, ground arith)
load_bar-IsLoaded (suc zero) lt = (_, refl, ground arith)
load_bar-IsLoaded (suc (suc zero)) lt = (_, refl, ground arith)
load_bar-IsLoaded (suc (suc (suc zero))) lt = (_, refl, ground arith)
load_bar-IsLoaded (suc (suc (suc (suc zero)))) lt = (_, refl, ground arith)
load_bar-IsLoaded (suc (suc (suc (suc (suc zero))))) lt = (_, refl, ground arith)
load_bar-IsLoaded (suc (suc (suc (suc (suc (suc zero)))))) lt = (_, refl, ground arith)
load_bar-IsLoaded (suc (suc (suc (suc (suc (suc (suc zero))))))) lt = (_, refl, ground arith)
load_bar-IsLoaded (suc (suc (suc (suc (suc (suc (suc (suc i)))))))) lt = absurd (omega arith)

bar_of-lt : (groups_per_bar g : ℕ) → bar_of groups_per_bar g < 8
bar_of-lt groups_per_bar g = ground arith

-- The groups g to g + left - 1 of the row at `row` have their colours; nothing below changed.
record IsDrawn (groups_per_bar row : ℕ) (frame : Bytes) (g left : ℕ) (out : Bytes) : Type 0 where
  same_length : length out ≡ length frame
  octets : IsBytes out
  inside :
      (k : ℕ) → g ≤ k → k < g + left → pgroup_bits out (row + k * 5) ≡ colour_bits groups_per_bar k
  below : (j : ℕ) → j < row + g * 5 → get_or out j 0 ≡ get_or frame j 0

-- A group that nothing wrote to.
pgroup_bits-below :
    (a b : Bytes) (at limit : ℕ)
    → at + 5 ≤ limit
    → ((j : ℕ) → j < limit → get_or a j 0 ≡ get_or b j 0)
    → pgroup_bits a at ≡ pgroup_bits b at
pgroup_bits-below a b at limit room same = omega (
  arith,
  same at (omega arith),
  same (at + 1) (omega arith),
  same (at + 2) (omega arith),
  same (at + 3) (omega arith),
  same (at + 4) (omega arith),
)

draw_row-IsDrawn :
    (groups_per_bar row left : ℕ) (frame : Bytes) (g : ℕ)
    → IsBytes frame
    → row + (g + left) * 5 ≤ length frame
    → Returns (draw_row groups_per_bar row left frame g) (IsDrawn groups_per_bar row frame g left)
unfolding draw_row
draw_row-IsDrawn groups_per_bar row zero frame g octets room = (
  frame,
  refl,
  record {
    same_length = refl;
    octets = octets;
    inside = λ k p q. absurd (omega arith);
    below = λ j p. refl;
  },
)
draw_row-IsDrawn groups_per_bar row (suc left) frame g octets room =
    Returns-bind (load_bar-IsLoaded (bar_of groups_per_bar g) (bar_of-lt groups_per_bar g)) λ bar l.
      Returns-bind
        (pack_group-IsPacked bar.cb bar.luma bar.cr bar.luma l.cb_range l.luma_range l.cr_range
          l.luma_range frame (row + g * 5) octets (omega arith))
        λ mid p.
          let (out, e, d) =
            draw_row-IsDrawn groups_per_bar row left mid (g + 1) p.octets
              (omega (arith, p.writes.same_length)) in
          (
            out,
            e,
            record {
              same_length = d.same_length ∙ p.writes.same_length;
              octets = d.octets;
              inside = λ k q q'. elim (dec_lt g k) [
                | yes above ↦ d.inside k (omega arith) (omega arith)
                | no not_above ↦
                    let same : k ≡ g = omega arith in
                    rw same (
                      pgroup_bits-below out mid (row + g * 5) (row + (g + 1) * 5) (omega arith)
                        d.below
                      ∙ p.bits
                      ∙ ap (λ b. samples_bits b.cb b.luma b.cr b.luma) l.is_bar)
              ];
              below = λ j q. d.below j (omega arith) ∙ p.writes.outside j (inl q);
            },
          )

-- The lines from y on: in each line every group has the colour that the loops give it.
pub record IsColoured (groups_per_bar groups stride y lines : ℕ) (out : Bytes) : Type 0 where
  pub octets : IsBytes out
  pub inside :
      (k g : ℕ)
      → y ≤ k
      → k < y + lines
      → g < groups
      → pgroup_bits out (k * stride + g * 5) ≡ colour_bits groups_per_bar g

module _ (groups_per_bar groups stride : ℕ) (line_holds : groups * 5 ≤ stride) where
  -- The lines from y on, over a frame whose lines below y stay.
  pub record IsFilled (frame : Bytes) (y lines : ℕ) (out : Bytes) : Type 0 where
    pub same_length : length out ≡ length frame
    pub picture : IsColoured groups_per_bar groups stride y lines out
    pub below : (j : ℕ) → j < y * stride → get_or out j 0 ≡ get_or frame j 0

  row_inside : (y left size : ℕ) → (y + suc left) * stride ≤ size → y * stride + groups * 5 ≤ size
  row_inside y left size h = grind arith

  group_inside : (y g : ℕ) → g < groups → y * stride + g * 5 + 5 ≤ (y + 1) * stride
  group_inside y g h = grind arith

  line_below : (y j : ℕ) → j < y * stride → j < (y + 1) * stride
  line_below y j h = grind arith

  pub draw_rows-IsFilled :
      (left : ℕ) (frame : Bytes) (y : ℕ)
      → IsBytes frame
      → (y + left) * stride ≤ length frame
      → Returns (draw_rows groups_per_bar groups stride left frame y) (IsFilled frame y left)
  unfolding draw_rows
  draw_rows-IsFilled zero frame y octets room = (
    frame,
    refl,
    record {
      same_length = refl;
      picture = record { octets = octets; inside = λ k g p q r. absurd (omega arith) };
      below = λ j p. refl;
    },
  )
  draw_rows-IsFilled (suc left) frame y octets room =
      let e : y + 1 + left ≡ y + suc left = omega arith in
      Returns-bind
        (draw_row-IsDrawn groups_per_bar (y * stride) groups frame 0 octets
          (omega (arith, row_inside y left (length frame) room)))
        λ mid d.
          let (out, e', f) =
            draw_rows-IsFilled left mid (y + 1) d.octets (rw (e, d.same_length) room) in
          (
            out,
            e',
            record {
              same_length = f.same_length ∙ d.same_length;
              picture = record {
                octets = f.picture.octets;
                inside = λ k g q q' r. elim (dec_lt y k) [
                  | yes above ↦ f.picture.inside k g (omega arith) (omega arith) r
                  | no not_above ↦
                      let same : k ≡ y = omega arith in
                      rw same (
                        pgroup_bits-below out mid (y * stride + g * 5) ((y + 1) * stride)
                          (group_inside y g r) f.below
                        ∙ d.inside g (omega arith) (omega arith))
                ];
              };
              below = λ j q. f.below j (line_below y j q) ∙ d.below j (omega arith);
            },
          )
