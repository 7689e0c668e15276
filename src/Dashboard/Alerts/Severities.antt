-- ===== src/Dashboard/Alerts/Severities.antt =====
-- apps/web/utils/alerts.ts: the worst severity, and the counts of each.
use airport_inspection_platf.Prelude.{
  All, Bool-cases, List, [], arith, if◌then◌else◌, inl, inr, length, ltb, suc, ℕ, ◌+◌, ◌∙◌, ◌∷◌,
  ◌≡◌, ◌≤◌,
}
use airport_inspection_platf.Dashboard.Alerts.{
  AlertItem, AlertSeverity, SeverityCounts, count_from, count_one, counts_by_severity, critical,
  high, info, low, medium, severity_rank, worst_from, worst_severity,
}

abbrev pub count_of : AlertSeverity → SeverityCounts → ℕ
count_of critical c = c.critical
count_of high c = c.high
count_of medium c = c.medium
count_of low c = c.low
count_of info c = c.info

abbrev worse : AlertSeverity → AlertSeverity → AlertSeverity
worse s t = if ltb (severity_rank s) (severity_rank t) then t else s

worse-bounds :
    (s t : AlertSeverity)
    → (severity_rank s ≤ severity_rank (worse s t)) × (severity_rank t ≤ severity_rank (worse s t))
worse-bounds s t = elim (Bool-cases (ltb (severity_rank s) (severity_rank t))) [
  | inl less ↦ rw less (ground arith, omega arith)
  | inr more ↦ rw more (omega arith, ground arith)
]

-- No alert is worse than the worst.
worst_from-bounds :
    (worst : AlertSeverity) (items : List AlertItem)
    → (severity_rank worst ≤ severity_rank (worst_from worst items))
      × All (λ i. severity_rank i.severity ≤ severity_rank (worst_from worst items)) items
worst_from-bounds worst [] = (omega arith, tt)
worst_from-bounds worst (i ∷ items) =
    let (a, h) = worst_from-bounds (worse worst i.severity) items in
    let (b, c) = worse-bounds worst i.severity in (omega arith, (omega arith, h))

-- The worst severity is at least that of every alert.
pub worst_severity-bounds :
    (items : List AlertItem)
    → All (λ i. severity_rank i.severity ≤ severity_rank (worst_severity items)) items
unfolding worst_severity
worst_severity-bounds items = (worst_from-bounds info items).1

abbrev pub total : SeverityCounts → ℕ
total c = c.critical + c.high + c.medium + c.low + c.info

count_one-total : (s : AlertSeverity) (c : SeverityCounts) → total (count_one s c) ≡ suc (total c)
count_one-total critical c = omega arith
count_one-total high c = omega arith
count_one-total medium c = omega arith
count_one-total low c = omega arith
count_one-total info c = omega arith

count_from-total :
    (c : SeverityCounts) (items : List AlertItem)
    → total (count_from c items) ≡ total c + length items
count_from-total c [] = omega arith
count_from-total c (i ∷ items) =
    omega (arith, count_from-total (count_one i.severity c) items, count_one-total i.severity c)

-- Each alert is counted once.
pub total-counts_by_severity :
    (items : List AlertItem) → total (counts_by_severity items) ≡ length items
unfolding counts_by_severity
total-counts_by_severity items =
    count_from-total (record { critical = 0; high = 0; medium = 0; low = 0; info = 0 }) items
    ∙ omega arith
