-- ===== src/Uploader/Tracker/Window.antt =====
-- The sliding window: what is kept, and when a speed is reported.
use cloudreve_desktop.Prelude.{filter_by, All, ℕ, ◌+◌, ◌≤◌, ◌≡◌, List, [], ◌∷◌, ◌++◌, arith}
use cloudreve_desktop.Uploader.Tracker.{SpeedCalculator, in_window, record_and_calculate}

abbrev pub Recent : ℕ → ℕ → ℕ × ℕ → Type 0
Recent now window (t, bytes) = now ≤ t + window

filter_by-Recent :
    (now window : ℕ) (l : List (ℕ × ℕ))
    → All (Recent now window) (filter_by (in_window now window) l)
filter_by-Recent now window [] = tt
filter_by-Recent now window ((t, bytes) ∷ l) = ground (arith, filter_by-Recent now window l)

-- After a sample is recorded the window holds no sample older than its length, and holds the new one
-- last.
pub window-Recent :
    (rate : ℕ → ℕ → ℕ) (now : ℕ) (c : SpeedCalculator) (total_bytes : ℕ)
    → All (Recent now c.window_duration) (record_and_calculate rate now c total_bytes).1.samples
      × ((earlier : List (ℕ × ℕ)) × ((record_and_calculate rate now c total_bytes).1.samples
            ≡ earlier ++ (now, total_bytes) ∷ []))
unfolding record_and_calculate
window-Recent rate now c total_bytes = (
  filter_by-Recent now c.window_duration (c.samples ++ (now, total_bytes) ∷ []),
  (filter_by (in_window now c.window_duration) c.samples, last c.samples),
)
  where
    last :
        (l : List (ℕ × ℕ))
        → filter_by (in_window now c.window_duration) (l ++ (now, total_bytes) ∷ [])
          ≡ filter_by (in_window now c.window_duration) l ++ (now, total_bytes) ∷ []
    last [] = ground arith
    last ((t, bytes) ∷ l) = ground (arith, last l)
