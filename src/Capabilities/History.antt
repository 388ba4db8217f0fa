-- ===== src/Capabilities/History.antt =====
-- history.py: events and the SQLite journal. The table's rows stand in the order of their rowids.
-- The column `occurred_at` is ISO text of a UTC time, whose order as text is that of the instants,
-- so a row keeps the time itself.
pub mod Detail
pub mod Rows
use skifer.Prelude.{
  ℕ, ◌≡◌, String, Bool, true, false, not, ◌&&◌, ◌||◌, ◌==◌, Option, none, some, List, [], ◌∷◌, ◌++◌,
  ltb, leb, take, if◌then◌else◌,
}
use skifer.Prelude.Text.{text_length, is_hash}
use skifer.Outcome.{capability_history_error, Result, ok, err, require, refuse, ◌>>=◌, ◌>>◌}
use skifer.Time.{DateTime, is_utc}
use skifer.Json.{Value, JsonLibrary}
use skifer.Capabilities.Autonomy.{ExecutionState}
use Detail.{max_event_detail_bytes, copy_bounded_detail}

abbrev pub max_history_page_size : ℕ
max_history_page_size = 1_000

pub record CapabilityStateEvent : Type 0 where
  pub event_id : String
  pub request_hash : String
  pub capability_id : String
  pub capability_version : String
  pub subject : String
  pub state : ExecutionState
  pub occurred_at : DateTime
  pub detail : Value

-- Text of 1 to `maximum` characters.
abbrev pub has_length : ℕ → String → Bool
has_length maximum s = not (s == "") && leb (text_length s) maximum

module _ (lib : JsonLibrary) (lower : String → String) where
  -- `CapabilityStateEvent.__post_init__`
  unfoldable pub make_event : CapabilityStateEvent → Result CapabilityStateEvent
  make_event e = do
    require (has_length 128 e.event_id) capability_history_error
    require (has_length 128 e.capability_id) capability_history_error
    require (has_length 64 e.capability_version) capability_history_error
    require (has_length 512 e.subject) capability_history_error
    require (is_hash e.request_hash) capability_history_error
    require (is_utc e.occurred_at) capability_history_error
    copied ← copy_bounded_detail lib lower max_event_detail_bytes e.detail
    ok (record e { detail = copied })

-- A row of `capability_state_events`. `detail` is the JSON text.
pub record Row (lib : JsonLibrary) : Type 0 where
  pub event_id : String
  pub request_hash : String
  pub capability_id : String
  pub capability_version : String
  pub subject : String
  pub state : ExecutionState
  pub occurred_at : DateTime
  pub detail : lib.Text

module _ {lib : JsonLibrary} where
  -- The primary key's test of INSERT OR IGNORE.
  unfoldable pub has_event : String → List (Row lib) → Bool
  has_event id [] = false
  has_event id (r ∷ rs) = r.event_id == id || has_event id rs

  unfoldable pub insert_or_ignore : Row lib → List (Row lib) → List (Row lib)
  insert_or_ignore r rows = if has_event r.event_id rows then rows else rows ++ r ∷ []

  -- WHERE request_hash = ?
  unfoldable pub rows_for : String → List (Row lib) → List (Row lib)
  rows_for hash [] = []
  rows_for hash (r ∷ rs) =
      let rest = rows_for hash rs in if r.request_hash == hash then r ∷ rest else rest

  -- The later of two rows, the second in the order of rowids.
  newer : Option (Row lib) → Row lib → Row lib
  newer none r = r
  newer (some s) r = if ltb r.occurred_at.instant s.occurred_at.instant then s else r

  -- ORDER BY occurred_at DESC, rowid DESC LIMIT 1
  unfoldable pub newest : Option (Row lib) → List (Row lib) → Option (Row lib)
  unfolding newer
  newest best [] = best
  newest best (r ∷ rs) = newest (some (newer best r)) rs

  -- Into a list in the order of times, before the rows of a later time or of the same.
  insert_by_time : Row lib → List (Row lib) → List (Row lib)
  insert_by_time r [] = r ∷ []
  insert_by_time r (s ∷ ss) =
      let rest = insert_by_time r ss in
      if ltb s.occurred_at.instant r.occurred_at.instant then s ∷ rest else r ∷ s ∷ ss

  -- ORDER BY occurred_at ASC, rowid ASC
  unfoldable pub sort_by_time : List (Row lib) → List (Row lib)
  unfolding insert_by_time
  sort_by_time [] = []
  sort_by_time (r ∷ rs) = insert_by_time r (sort_by_time rs)

module _ (lib : JsonLibrary) (lower : String → String) where
  -- `to_dict` and the JSON text of its detail.
  unfoldable pub row_of : CapabilityStateEvent → Result (Row lib)
  row_of e = do
    copied ← copy_bounded_detail lib lower max_event_detail_bytes e.detail
    ok (record {
      event_id = e.event_id;
      request_hash = e.request_hash;
      capability_id = e.capability_id;
      capability_version = e.capability_version;
      subject = e.subject;
      state = e.state;
      occurred_at = e.occurred_at;
      detail = lib.dumps copied;
    })

  -- `_event_from_row`
  unfoldable pub event_from_row : Row lib → Result CapabilityStateEvent
  event_from_row r = elim (lib.loads r.detail) [
    | none ↦ err capability_history_error
    | some detail ↦ make_event lib lower (record {
      event_id = r.event_id;
      request_hash = r.request_hash;
      capability_id = r.capability_id;
      capability_version = r.capability_version;
      subject = r.subject;
      state = r.state;
      occurred_at = r.occurred_at;
      detail = detail;
    })
  ]

  unfoldable pub events_from_rows : List (Row lib) → Result (List CapabilityStateEvent)
  events_from_rows [] = ok []
  events_from_rows (r ∷ rs) = do e ← event_from_row r; es ← events_from_rows rs; ok (e ∷ es)

  -- `SqliteCapabilityHistoryStore.append`
  unfoldable pub append : CapabilityStateEvent → List (Row lib) → Result (List (Row lib))
  append e rows = do row ← row_of e; ok (insert_or_ignore row rows)

  -- `events_for`
  unfoldable pub events_for : String → ℕ → List (Row lib) → Result (List CapabilityStateEvent)
  events_for hash limit rows = do
    require (is_hash hash) capability_history_error
    require (leb 1 limit && leb limit max_history_page_size) capability_history_error
    events_from_rows (take limit (sort_by_time (rows_for hash rows)))

  read_row : Option (Row lib) → Result (Option CapabilityStateEvent)
  read_row none = ok none
  read_row (some r) = do e ← event_from_row r; ok (some e)

  -- `latest_state`
  unfoldable pub latest_state : String → List (Row lib) → Result (Option CapabilityStateEvent)
  unfolding read_row
  latest_state hash rows = do
    require (is_hash hash) capability_history_error
    read_row (newest none (rows_for hash rows))
