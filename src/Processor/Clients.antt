-- ===== src/Processor/Clients.antt =====
-- Which client each message goes to, and the invariant of the processor behind it: the client of
-- every resting order is known.
use exchange_simulator.Common.{
  ℕ, suc, ◌≡◌, refl, sym, ap, ◌∙◌, inl, inr, List, [], ◌∷◌, ◌++◌, map, append-nil, append_assoc,
  Option, none, some, update, ◌==◌, Bool-cases, ==_iff, if◌then◌else◌, returned, false, All,
  All-map, fun_ext,
}
use exchange_simulator.Types.{
  Side, bid, ask, unnamed_side, Order, Trade, new_order, order_ack, trade, InboundMessage,
  OutboundMessage,
}
use exchange_simulator.Order.Valid.{IsValid as IsValidOrder}
use exchange_simulator.Book.{OrderBook, OrderLocation}
use exchange_simulator.Book.Valid.{IsValid, OrderMap}
use exchange_simulator.Engine.{match}
use exchange_simulator.Engine.Makers.{
  IsKnown, BidTrade, AskTrade, match_bid-makers, match_ask-makers,
}
use exchange_simulator.Serializer.Frames.{frame, id_payload, trade_payload}
use exchange_simulator.Serializer.{deserialize_order}
use exchange_simulator.Serializer.Decoding.{deserialize_order-IsValid}
use exchange_simulator.Processor.{Processor, notify, entry_or_zero, counterparty, process}
use exchange_simulator.Processor.Replies.{trade_frames, notify_all, noted, process-decoded_order}

-- What the entry of an id in the book asks of its entry among the clients.
abbrev pub HasClient : Option OrderLocation → Option ℕ → Type 0
HasClient none fd = Unit
HasClient (some loc) fd = (k : ℕ) × (fd ≡ some k)

-- The book is valid, and the client of every resting order is known.
pub record IsSound (p : Processor) : Type 0 where
  pub book_ok : IsValid p.orderbook
  pub clients_ok : (id : ℕ) → HasClient (p.orderbook.order_map id) (p.order_to_client_fd id)

-- The party of a trade that is not the order.
abbrev pub other_party : Order → Trade → ℕ
other_party o t = if t.buyer_order_id == o.id then t.seller_order_id else t.buyer_order_id

-- The message by which the client of the other party learns of its trade.
abbrev pub notice : (ℕ → Option ℕ) → Order → Trade → OutboundMessage
notice fds o t = record {
  fd = entry_or_zero (fds (other_party o t));
  payload = frame trade (trade_payload t);
}

-- The other party of the trade has the same client in both maps.
record Reached (old new : ℕ → Option ℕ) (o : Order) (t : Trade) : Type 0 where
  is_counterparty : counterparty o.side t ≡ other_party o t
  client : ℕ
  in_old : old (other_party o t) ≡ some client
  in_new : new (other_party o t) ≡ some client

update_same : (m : ℕ → Option ℕ) (id k : ℕ) → m id ≡ some k → update m id (some k) ≡ m
update_same m id k e = fun_ext λ j. elim (Bool-cases (j == id)) [
  | inl same ↦ rw same (sym (ap m ((==_iff _ _).0 same) ∙ e))
  | inr other ↦ rw other
]

notify_lem :
    (old : ℕ → Option ℕ) (o : Order) (t : Trade) (p : Processor)
    → Reached old p.order_to_client_fd o t
    → notify o.side t (frame trade (trade_payload t)) p
      ≡ record p { outbound = p.outbound ++ notice old o t ∷ [] }
notify_lem old o t p r = rw (
  r.is_counterparty,
  r.in_old,
  r.in_new,
  update_same p.order_to_client_fd (other_party o t) r.client r.in_new,
)

notify_all_lem :
    (old : ℕ → Option ℕ) (o : Order) (ts : List Trade) (p : Processor)
    → All (Reached old p.order_to_client_fd o) ts
    → notify_all o.side ts p ≡ record p { outbound = p.outbound ++ map (notice old o) ts }
notify_all_lem old o [] p h = rw append-nil
notify_all_lem old o (t ∷ ts) p h = rw (
  notify_lem old o t p h.0,
  notify_all_lem old o ts (record p { outbound = p.outbound ++ notice old o t ∷ [] }) h.1,
  append_assoc,
)

known_client :
    (p : Processor) (id : ℕ)
    → IsSound p
    → IsKnown p.orderbook.order_map id
    → (k : ℕ) × (p.order_to_client_fd id ≡ some k)
known_client p id s (loc, e) = rw e at (s.clients_ok id)

known_differs : (m : OrderMap) (id own : ℕ) → IsKnown m id → m own ≡ none → (id == own) ≡ false
known_differs m id own (loc, e) fresh = elim (Bool-cases (id == own)) [
  | inl same ↦ absurd (cc ((==_iff id own).0 same, e, fresh, ap m ((==_iff id own).0 same)))
  | inr other ↦ other
]

match_unnamed :
    (clock : ℕ → ℕ) (o : Order) (b : OrderBook) (c : ℕ)
    → o.side ≡ unnamed_side c
    → (match clock o b []).trades ≡ []
unfolding match
match_unnamed clock o b c e = rw e

module _ (o : Order) (p : Processor) (fd : ℕ) (s : IsSound p)
    (fresh : p.orderbook.order_map o.id ≡ none) where
  abbrev WithClient : Trade → Type 0
  WithClient = Reached p.order_to_client_fd (update p.order_to_client_fd o.id (some fd)) o

  reached :
      (t : Trade) (maker : ℕ)
      → IsKnown p.orderbook.order_map maker
      → other_party o t ≡ maker
      → counterparty o.side t ≡ maker
      → WithClient t
  reached t maker h e c =
      let (k, f) = known_client p maker s h in
      record {
        is_counterparty = c ∙ sym e;
        client = k;
        in_old = rw e f;
        in_new = rw (e, known_differs p.orderbook.order_map maker o.id h fresh) f;
      }

  bid-reached : (t : Trade) → o.side ≡ bid → BidTrade p.orderbook.order_map o t → WithClient t
  bid-reached t e (b, h) = reached t t.seller_order_id h (rw (b, (==_iff o.id o.id).1 refl)) (rw e)

  ask-reached : (t : Trade) → o.side ≡ ask → AskTrade p.orderbook.order_map o t → WithClient t
  ask-reached t e (b, h) =
      reached t t.buyer_order_id h
        (rw (known_differs p.orderbook.order_map t.buyer_order_id o.id h fresh)) (rw e)

  trades-reached :
      (clock : ℕ → ℕ) → IsValidOrder o → All WithClient (match clock o p.orderbook []).trades
  trades-reached clock vo = go o.side refl
    where
      go : (k : Side) → o.side ≡ k → All WithClient (match clock o p.orderbook []).trades
      go bid e =
          All-map _ (λ t. bid-reached t e) (match_bid-makers clock o p.orderbook vo s.book_ok e)
      go ask e =
          All-map _ (λ t. ask-reached t e) (match_ask-makers clock o p.orderbook vo s.book_ok e)
      go (unnamed_side c) e = rw (match_unnamed clock o p.orderbook c e) tt

-- An order with an id that is not resting, read from its payload, is matched and its client is
-- noted; the client of the other party of each trade is sent that trade, in the order of the trades,
-- and then the client all of them, in one message that ends with the acknowledgement. The book is
-- valid and the clients of its orders are known.
pub process-new_order :
    (clock : ℕ → ℕ) (i : InboundMessage) (p : Processor) (o : Order)
    → i.type ≡ new_order
    → deserialize_order (clock 0) (record { type = new_order; payload = i.payload }) ≡ returned o
    → IsSound p
    → p.orderbook.order_map o.id ≡ none
    → let m = match (λ k. clock (suc k)) o p.orderbook [] in
      process clock i p ≡ (
        returned tt,
        record {
          orderbook = m.book;
          order_to_client_fd = update p.order_to_client_fd o.id (some i.fd);
          outbound =
              p.outbound
              ++ (map (notice p.order_to_client_fd o) m.trades
                  ++ record {
                    fd = i.fd;
                    payload = trade_frames m.trades ++ frame order_ack (id_payload o.id);
                  }
                    ∷ []);
        },
      )
process-new_order clock i p o t e s fresh =
    let (h, vo) =
      deserialize_order-IsValid (clock 0) (record { type = new_order; payload = i.payload }) o e in
    let m = match (λ k. clock (suc k)) o p.orderbook [] in
    rw (
      process-decoded_order clock i p o t e s.book_ok,
      notify_all_lem p.order_to_client_fd o m.trades (noted i.fd o m p)
          (trades-reached o p i.fd s fresh (λ k. clock (suc k)) vo),
      append_assoc,
    )
