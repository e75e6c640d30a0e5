-- ===== src/Edge/Settled.antt =====
-- Which heights the edge answers from its cache.
use chaintracks_cloudflare.Prelude.{
  ℕ, ◌+◌, ◌<◌, ◌≤◌, ◌≡◌, refl, Option, none, some, Text, Bool, true, false, arith,
}
use chaintracks_cloudflare.Edge.{
  Edge, off, depth, parse, line, settled, control, kept, near, settled_control, reorg_bound,
}

line-parse : (raw : Option Text) → reorg_bound ≤ line (parse raw)
unfolding parse line
line-parse none = omega arith
line-parse (some raw) = ground arith

settled-deep :
    (tip : Option ℕ) (height line : ℕ)
    → settled tip height line ≡ true
    → (t : ℕ) × (tip ≡ some t) × (height + line < t)
unfolding settled
settled-deep none height line h = ground arith
settled-deep (some t) height line h = (t, refl, ground arith)

kept-settled :
    (edge : Edge) (s : Bool) (v060 : Option Text)
    → kept edge s ≡ true
    → (s ≡ true) × (control edge s v060 ≡ some settled_control)
unfolding kept control
kept-settled off s v060 h = cc
kept-settled (depth d) true v060 h = (refl, refl)
kept-settled (depth d) false v060 h = cc

-- Whatever `HEADER_EDGE_DEPTH` holds, an answer that the edge keeps is for a height more than 400
-- below the served tip, the deepest reorg; and it is the answer that carries a day's lifetime.
pub kept-deep :
    (raw : Option Text) (tip : Option ℕ) (height : ℕ) (v060 : Option Text)
    → kept (parse raw) (settled tip height (line (parse raw))) ≡ true
    → (t : ℕ) × (tip ≡ some t)
      × (height + reorg_bound < t)
      × (control (parse raw) (settled tip height (line (parse raw))) v060 ≡ some settled_control)
kept-deep raw tip height v060 h =
    let (on, far) = kept-settled (parse raw) (settled tip height (line (parse raw))) v060 h in
    let (t, e, deep) = settled-deep tip height (line (parse raw)) on in
    (t, e, omega (arith, line-parse raw), far)

-- Within the line of the served tip, or with no tip, every answer is `no-cache`, in both modes.
pub control-near :
    (edge : Edge) (t height : ℕ) (v060 : Option Text)
    → t ≤ height + line edge
    → (control edge (settled (some t) height (line edge)) v060 ≡ some near)
      × (control edge (settled none height (line edge)) v060 ≡ some near)
      × (kept edge (settled (some t) height (line edge)) ≡ false)
unfolding control settled kept line
control-near off t height v060 h = ground arith
control-near (depth d) t height v060 h = ground arith
