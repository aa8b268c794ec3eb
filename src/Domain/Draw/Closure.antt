-- ===== src/Domain/Draw/Closure.antt =====
-- The compatibility record of a draw's closure (packages/domain/src/draw.ts).
use gambling.Base.{ℕ, String, Bool, true, false, Option, none, some, if◌then◌else◌, trim}
use gambling.Base.Platform.{Platform}

-- DRAW_CLOSURE_STATUSES
pub data DrawClosureStatus : Type 0 where
  opened closed : DrawClosureStatus

pub record DrawClosureRecord : Type 0 where
  pub lottery_code : String
  pub draw_id : String
  pub status : DrawClosureStatus
  pub closed_at : Option String
  pub closed_by : Option String

abbrev pub admin_emulated_win_amount_minor : ℕ
admin_emulated_win_amount_minor = 50_000

unfoldable pub create_open_draw_closure : Platform → String → String → DrawClosureRecord
create_open_draw_closure p code draw_id = record {
  lottery_code = p.to_lower_case (trim code);
  draw_id = trim draw_id;
  status = DrawClosureStatus.opened;
  closed_at = none;
  closed_by = none;
}

abbrev pub is_closed_status : DrawClosureStatus → Bool
is_closed_status DrawClosureStatus.opened = false
is_closed_status DrawClosureStatus.closed = true

unfoldable pub close_draw_closure : DrawClosureRecord → String → String → DrawClosureRecord
close_draw_closure r by at =
    if is_closed_status r.status
    then r
    else record r { status = DrawClosureStatus.closed; closed_at = some at; closed_by = some by }

unfoldable pub is_draw_closed : Option DrawClosureRecord → Bool
is_draw_closed none = false
is_draw_closed (some r) = is_closed_status r.status
