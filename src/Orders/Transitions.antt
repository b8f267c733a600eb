-- ===== src/Orders/Transitions.antt =====
-- ORDER_STATE_TRANSITIONS of server/src/modules/orders/orders.service.ts.
use gramoz.Common.{Bool, List, [], ◌∷◌}
use gramoz.Schema.Enums.{OrderStatus, includes}

unfoldable pub order_state_transitions : OrderStatus → List OrderStatus
order_state_transitions OrderStatus.pending = OrderStatus.processing ∷ OrderStatus.cancelled ∷ []
order_state_transitions OrderStatus.processing = OrderStatus.shipped ∷ OrderStatus.cancelled ∷ []
order_state_transitions OrderStatus.shipped =
    OrderStatus.out_for_delivery ∷ OrderStatus.delivered ∷ []
order_state_transitions OrderStatus.out_for_delivery = OrderStatus.delivered ∷ []
order_state_transitions OrderStatus.delivered = OrderStatus.refunded ∷ []
order_state_transitions OrderStatus.cancelled = []
order_state_transitions OrderStatus.refunded = []

-- `allowedNext.includes(status)`
unfoldable pub allowed : OrderStatus → OrderStatus → Bool
unfolding order_state_transitions
allowed s t = includes (order_state_transitions s) t

-- `cancellableStatuses`
abbrev pub cancellable : OrderStatus → Bool
cancellable s = includes (OrderStatus.pending ∷ OrderStatus.processing ∷ []) s
