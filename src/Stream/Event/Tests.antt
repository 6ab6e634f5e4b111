-- ===== src/Stream/Event/Tests.antt =====
-- Examples for src/corporate_actions/event.rs.
use st0x_alpaca.Prelude.{ℕ, List, codes}
use st0x_alpaca.Stream.Event.{CorporateActionEventId}

abbrev ulid : List ℕ
ulid = codes "01ARZ3NDEKTSV4RRFFQ69G5FAV"

abbrev ulid_id : CorporateActionEventId
ulid_id = record { value = ulid }
