-- ===== src/Offline/Report.antt =====
-- src/offline.ts: the one-line report of a summary.
use Prim.Native.String
use pokeage.Prelude.{
  ℕ, zero, suc, ◌/◌, ◌%◌, List, [], ◌∷◌, ◌++◌, String, ltb, if◌then◌else◌, ℤ, pos, negsuc, length,
}
use pokeage.Prelude.Decimal.{decimal}
use pokeage.Offline.{OfflineSummary}

abbrev cat : String → String → String
cat = String.◌++◌

-- A part of the report, for a counter that is above zero.
abbrev pub part : String → ℤ → String → List String
part before (pos zero) after = []
part before (pos (suc k)) after = cat before (cat (decimal (suc k)) after) ∷ []
part before (negsuc k) after = []

-- `parts.join(', ')`
abbrev pub join : List String → String
join [] = ""
join (s ∷ []) = s
join (s ∷ t ∷ ts) = cat s (cat ", " (join (t ∷ ts)))

abbrev pub parts_of : OfflineSummary → List String
parts_of s =
    part "" s.battles " battles"
    ++ part "+" s.caught " caught"
    ++ part "+" s.levels " levels"
    ++ part "+" s.badges " badges"

abbrev pub hours_of : OfflineSummary → ℕ
hours_of s = s.duration_ms / 60000 / 60

abbrev pub minutes_of : OfflineSummary → ℕ
minutes_of s = s.duration_ms / 60000 % 60

unfoldable pub format_offline_summary : OfflineSummary → String
format_offline_summary s =
    let h = hours_of s in
    let m = minutes_of s in
    let minutes = cat (decimal m) "m" in
    let dur = if ltb 0 h then cat (decimal h) (cat "h " minutes) else minutes in
    let parts = parts_of s in
    let body = if ltb 0 (length parts) then join parts else "no progress" in
    cat "away " (cat dur (cat (if s.capped then " (capped)" else "") (cat ": " body)))
