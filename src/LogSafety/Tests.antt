-- ===== src/LogSafety/Tests.antt =====
-- Runs of the cut for the log (src/log_safety.rs).
use rust_mcp_core.Common.{arith, refl, true, ◌+◌, ◌<◌, ◌↔◌, ◌≡◌, ◌≤◌, ◌⊎◌}
use rust_mcp_core.LogSafety.{is_char_boundary, truncate_string_for_log}
use rust_mcp_core.LogSafety.Bounds.{truncate_bounds}
use rust_mcp_core.Text.{len}

truncate_bounds_example :
    (len (truncate_string_for_log "naïve" 3).value ≤ 3 + 3)
    × ((truncate_string_for_log "naïve" 3).original_bytes ≡ len "naïve")
    × (((truncate_string_for_log "naïve" 3).truncated ≡ true) ↔ (3 < len "naïve"))
    × (((truncate_string_for_log "naïve" 3).truncated ≡ true)
        ⊎ ((truncate_string_for_log "naïve" 3).value ≡ "naïve"))
truncate_bounds_example = truncate_bounds "naïve" 3 (omega arith) (omega arith)

cut : (truncate_string_for_log "naïve" 3).value ≡ "na..."
unfolding truncate_string_for_log is_char_boundary len
cut = refl
