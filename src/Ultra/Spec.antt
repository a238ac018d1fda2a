-- ===== src/Ultra/Spec.antt =====
-- What `UltraOrderBook` promises: a map from identifiers to resting orders.
use nasdaq_order_book.Base.{ℕ, ◌-◌, Option, none, some, ◌==◌, if◌then◌else◌}
use nasdaq_order_book.Core.Event.{ItchEvent, add, exec, cancel, delete, replace}

pub record OrderView : Type 0 where
  pub side : ℕ
  pub quantity : ℕ
  pub price : ℕ

abbrev pub Orders : Type 0
Orders = ℕ → Option OrderView

-- Every side that is not 'B' is a sale.
abbrev pub side_of : ℕ → ℕ
side_of c = if c == b'B' then b'B' else b'S'

abbrev pub order_view : ℕ → ℕ → ℕ → OrderView
order_view side q p = record { side = side_of side; quantity = q; price = p }

-- A duplicate is ignored.
abbrev pub or_add : Option OrderView → OrderView → Option OrderView
or_add none o = some o
or_add (some old) o = some old

abbrev pub spec_add : Orders → ℕ → ℕ → ℕ → ℕ → Orders
spec_add m id side q p j = if j == id then or_add (m id) (order_view side q p) else m j

-- Subtraction stops at zero: an execution takes at most what is there.
abbrev pub lower : ℕ → Option OrderView → Option OrderView
lower qty none = none
lower qty (some o) = some (record o { quantity = o.quantity - qty })

abbrev pub spec_execute : Orders → ℕ → ℕ → Orders
spec_execute m id qty j = if j == id then lower qty (m id) else m j

abbrev pub spec_delete : Orders → ℕ → Orders
spec_delete m id j = if j == id then none else m j

abbrev pub spec_replace_found : Option OrderView → Orders → ℕ → ℕ → ℕ → ℕ → Orders
spec_replace_found none m old_id new_id q p = m
spec_replace_found (some o) m old_id new_id q p = spec_add (spec_delete m old_id) new_id o.side q p

abbrev pub spec_replace : Orders → ℕ → ℕ → ℕ → ℕ → Orders
spec_replace m old_id new_id q p = spec_replace_found (m old_id) m old_id new_id q p

abbrev pub spec_apply : ItchEvent → Orders → Orders
spec_apply (add id side q p sym) m = spec_add m id side q p
spec_apply (exec id q) m = spec_execute m id q
spec_apply (cancel id q) m = spec_execute m id q
spec_apply (delete id) m = spec_delete m id
spec_apply (replace old_id new_id q p sym) m = spec_replace m old_id new_id q p
