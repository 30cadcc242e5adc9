-- ===== src/Engine/Mux/Traffic/Total.antt =====
-- `onTraffic` ends, whatever a node sends.
use pluster.Prelude.{
  ℕ, zero, suc, ◌≤◌, ◌<◌, ◌≡◌, ◌≢◌, refl, Option, none, some, List, [], ◌∷◌, arith, Bytes, length,
  drop,
}
use pluster.Proto.Outcome.{Outcome, ok, incomplete, invalid, panicked, stuck, >>=-ne-stuck}
use pluster.Proto.Line.{length-drop}
use pluster.Proto.Scan.{Scanned, scan_value}
use pluster.Proto.Scan.Total.{scan_value_bounds, scan_value_total}
use pluster.Engine.Mux.Conn.{MuxConn}
use pluster.Engine.Mux.{Mux, Env, Effect}
use pluster.Engine.Mux.Traffic.{replies, after_scan, traffic_at, on_traffic}

module _ (env : Env) where
  after_scan-ne-stuck :
      (f : ℕ) (next : Mux → Bytes → Outcome (Mux × List Effect × Bytes))
      → ((m : Mux) (left : Bytes) → length left ≤ f → next m left ≢ stuck)
      → (m : Mux) (addr buf : Bytes) (o : Outcome Scanned) → length buf ≤ suc f
      → o ≢ stuck
      → ((s : Scanned) → o ≡ ok s → (0 < s.end) × (s.end ≤ length buf))
      → after_scan next env m addr buf o ≢ stuck
  after_scan-ne-stuck f next live m addr buf (ok s) h n b =
      >>=-ne-stuck (next _ (drop s.end buf)) _
        (live _ (drop s.end buf) (omega (arith, b s refl, length-drop s.end buf (b s refl).1)))
        (λ r p e. cc)
  after_scan-ne-stuck f next live m addr buf incomplete h n b = λ e. cc
  after_scan-ne-stuck f next live m addr buf invalid h n b = λ e. cc
  after_scan-ne-stuck f next live m addr buf panicked h n b = λ e. cc
  after_scan-ne-stuck f next live m addr buf stuck h n b = absurd (n refl)

  replies-ne-stuck :
      (f : ℕ) (m : Mux) (addr buf : Bytes) → length buf ≤ f → replies env f m addr buf ≢ stuck
  unfolding replies
  replies-ne-stuck f m addr [] h = λ e. cc
  replies-ne-stuck zero m addr (c ∷ buf) h = absurd (omega arith)
  replies-ne-stuck (suc f) m addr (c ∷ buf) h =
      after_scan-ne-stuck f (λ m' left. replies env f m' addr left)
        (λ m' left. replies-ne-stuck f m' addr left) m addr (c ∷ buf) (scan_value (c ∷ buf)) h
        (scan_value_total (c ∷ buf)) (scan_value_bounds (c ∷ buf))

  traffic_at-ne-stuck :
      (m : Mux) (addr buf : Bytes) (bc : Option MuxConn) → traffic_at env m addr buf bc ≢ stuck
  traffic_at-ne-stuck m addr buf none = λ e. cc
  traffic_at-ne-stuck m addr [] (some bc) = λ e. cc
  traffic_at-ne-stuck m addr (c ∷ buf) (some bc) =
      >>=-ne-stuck (replies env (length (c ∷ buf)) m addr (c ∷ buf)) _
        (replies-ne-stuck (length (c ∷ buf)) m addr (c ∷ buf) (omega arith)) (λ r p e. cc)

-- `onTraffic` ends on every buffer: the fuel of the model is enough.
pub on_traffic_total : (env : Env) (m : Mux) (addr buf : Bytes) → on_traffic env m addr buf ≢ stuck
unfolding on_traffic
on_traffic_total env m addr buf = traffic_at-ne-stuck env m addr buf (m.conns addr)
