-- ===== src/Books/Spec.antt =====
-- What `OrderBook` and `OptimizedOrderBook` promise: a map from identifiers to resting orders.
use nasdaq_order_book.Base.{ℕ, ◌-◌, Option, none, some, List, [], ◌∷◌, ◌==◌, if◌then◌else◌}
use nasdaq_order_book.Core.Event.{ItchEvent, add, exec, cancel, delete, replace}
use nasdaq_order_book.Ultra.Spec.{OrderView, Orders, or_add, spec_delete}

abbrev pub resting : ℕ → ℕ → ℕ → OrderView
resting side q p = record { side = side; quantity = q; price = p }

-- A duplicate is ignored.
abbrev pub spec_add : Orders → ℕ → ℕ → ℕ → ℕ → Orders
spec_add m id side q p j = if j == id then or_add (m id) (resting side q p) else m j

-- An execution takes at most what is there, and an order with nothing left is gone.
abbrev pub lower : ℕ → Option OrderView → Option OrderView
lower qty none = none
lower qty (some o) =
    if o.quantity - qty == 0 then none else some (record o { quantity = o.quantity - qty })

abbrev pub spec_execute : Orders → ℕ → ℕ → Orders
spec_execute m id qty j = if j == id then lower qty (m id) else m j

-- An order that holds the new identifier already is overwritten.
abbrev pub spec_replace_found : Option OrderView → Orders → ℕ → ℕ → ℕ → ℕ → Orders
spec_replace_found none m old_id new_id q p j = m j
spec_replace_found (some o) m old_id new_id q p j =
    if j == new_id then some (resting o.side q p) else spec_delete m old_id j

abbrev pub spec_replace : Orders → ℕ → ℕ → ℕ → ℕ → Orders
spec_replace m old_id new_id q p = spec_replace_found (m old_id) m old_id new_id q p

abbrev pub spec_apply : ItchEvent → Orders → Orders
spec_apply (add id side q p sym) m = spec_add m id side q p
spec_apply (exec id q) m = spec_execute m id q
spec_apply (cancel id q) m = spec_execute m id q
spec_apply (delete id) m = spec_delete m id
spec_apply (replace old_id new_id q p sym) m = spec_replace m old_id new_id q p

unfoldable pub spec_all : List ItchEvent → Orders → Orders
spec_all [] m = m
spec_all (e ∷ es) m = spec_all es (spec_apply e m)
