-- ===== src/Multipart/Runs.antt =====
-- The loop over a window of Cutelyst/multipartformdataparser.cpp as a relation without fuel.
use cutelyst.Common.{
  ℕ, zero, suc, ◌+◌, ◌<◌, Bytes, List, [], ◌∷◌, drop, length, length-drop, ◌≡◌, ◌≢◌, ◌∙◌, sym, refl,
  arith,
}
use cutelyst.Multipart.{
  Upload, Parser, Move, goes, leaves, overruns, step_in, Scanned, through, returned, overrun,
  out_of_fuel, scan, scan_window,
}

-- From `i` on, with `unread` left of the window, the loop comes to its end.
pub data Runs (boundary window : Bytes) (base : ℕ) : ℕ → Bytes → Parser → Scanned → Type 0 where
  done : {i : ℕ} {p : Parser} → Runs boundary window base i [] p (through p)
  more :
      {i j k : ℕ} {c : ℕ} {cs rest : Bytes} {p q : Parser} {r : Scanned}
      → step_in p.state boundary window base i (c ∷ cs) p ≡ goes k q
      → i + k + 1 ≡ j
      → drop k cs ≡ rest
      → Runs boundary window base j rest q r
      → Runs boundary window base i (c ∷ cs) p r
  leave :
      {i : ℕ} {c : ℕ} {cs : Bytes} {p : Parser} {ret : List Upload}
      → step_in p.state boundary window base i (c ∷ cs) p ≡ leaves ret
      → Runs boundary window base i (c ∷ cs) p (returned ret)
  breaks :
      {i : ℕ} {c : ℕ} {cs : Bytes} {p : Parser}
      → step_in p.state boundary window base i (c ∷ cs) p ≡ overruns
      → Runs boundary window base i (c ∷ cs) p overrun

-- A round takes a byte at least, so the fuel of `scan_window` is enough for what the relation says.
pub Runs→scan :
    {boundary window : Bytes} {base i : ℕ} {unread : Bytes} {p : Parser} {r : Scanned} (fuel : ℕ)
    → Runs boundary window base i unread p r
    → length unread < fuel
    → scan fuel boundary window base i unread p ≡ r
unfolding scan
Runs→scan zero w h = absurd (omega arith)
Runs→scan (suc fuel) done h = refl
Runs→scan (suc fuel) (more {j} {k} {cs} {rest} s e d w) h =
    let shorter : length rest < fuel = rw (← d) (omega (arith, length-drop {0} k cs)) in
    rw (s, scan) (rw (e, d) (Runs→scan fuel w shorter))
Runs→scan (suc fuel) (leave s) h = rw (s, scan) refl
Runs→scan (suc fuel) (breaks s) h = rw (s, scan) refl

module _ (boundary window : Bytes) (base : ℕ) where
  scan-Runs-case :
      (fuel i c : ℕ) (cs : Bytes) (p : Parser) (m : Move)
      → step_in p.state boundary window base i (c ∷ cs) p ≡ m
      → ((k : ℕ) (q : Parser)
          → (r : Scanned) × Runs boundary window base (i + k + 1) (drop k cs) q r)
      → (r : Scanned) × Runs boundary window base i (c ∷ cs) p r
  scan-Runs-case fuel i c cs p (goes k q) e later =
      let (r, w) = later k q in (r, more e refl refl w)
  scan-Runs-case fuel i c cs p (leaves ret) e later = (returned ret, leave e)
  scan-Runs-case fuel i c cs p overruns e later = (overrun, breaks e)

  -- Every window is run to an end.
  pub scan-Runs :
      (fuel i : ℕ) (unread : Bytes) (p : Parser)
      → length unread < fuel
      → (r : Scanned) × Runs boundary window base i unread p r
  scan-Runs zero i unread p h = absurd (omega arith)
  scan-Runs (suc fuel) i [] p h = (through p, done)
  scan-Runs (suc fuel) i (c ∷ cs) p h =
      scan-Runs-case fuel i c cs p (step_in p.state boundary window base i (c ∷ cs) p) refl
        (λ k q. scan-Runs fuel (i + k + 1) (drop k cs) q (omega (arith, length-drop {0} k cs)))

Runs-ne :
    {boundary window : Bytes} {base i : ℕ} {unread : Bytes} {p : Parser} {r : Scanned}
    → Runs boundary window base i unread p r
    → r ≢ out_of_fuel
Runs-ne done = λ e. cc
Runs-ne (more s e d w) = Runs-ne w
Runs-ne (leave s) = λ e. cc
Runs-ne (breaks s) = λ e. cc

pub scan_window-ne :
    (boundary : Bytes) (base : ℕ) (window : Bytes) (p : Parser)
    → scan_window boundary base window p ≢ out_of_fuel
unfolding scan_window
scan_window-ne boundary base window p e =
    let start : Parser = record p { carried = [] } in
    let (r, w) =
      scan-Runs boundary window base (suc (length window)) 0 window start (omega arith) in
    Runs-ne w (sym (Runs→scan (suc (length window)) w (omega arith)) ∙ e)
