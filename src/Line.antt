-- ===== src/Line.antt =====
-- The source of a LINE event, src/types.ts.
use hhc_line_function_bot.Prelude.{String, Option, none, some, if◌then◌else◌, is_empty}

pub record Source : Type 0 where
  pub kind : String
  pub user_id : Option String
  pub group_id : Option String
  pub room_id : Option String

-- An absent or empty id is falsy.
abbrev pub present : Option String → Option String
present none = none
present (some id) = if is_empty id then none else some id
