-- ===== src/Tests/Exchanges.antt =====
-- An order that the processor answers and the server sends.
use exchange_simulator.Common.{suc, ◌≡◌, refl, [], ◌++◌, map, none, returned}
use exchange_simulator.Types.{new_order, order_ack, InboundMessage}
use exchange_simulator.Book.{empty_book}
use exchange_simulator.Engine.{match}
use exchange_simulator.Serializer.Frames.{frame, id_payload, order_payload}
use exchange_simulator.Processor.{process}
use exchange_simulator.Processor.Replies.{trade_frames}
use exchange_simulator.Processor.Clients.{notice}
use exchange_simulator.Server.{drain_outbound_queue}
use exchange_simulator.Server.Streams.{Owes, bytes_for}
use exchange_simulator.Exchange.{process-drain_outbound_queue}
use exchange_simulator.Tests.Wire.{sent, sent-OrderFits, sent-IsValid}
use exchange_simulator.Tests.Servers.{connected, connected-Owes}
use exchange_simulator.Tests.Requests.{clock, idle, idle-IsSound, stamped}

abbrev arrived : InboundMessage
arrived = record { fd = 0; type = new_order; payload = order_payload sent }

process-drain_outbound_queue_example :
    let trades = (match (λ k. clock (suc k)) stamped empty_book []).trades in
    let out = process clock arrived idle in
    (out.0 ≡ returned tt)
    × Owes (drain_outbound_queue out.1.outbound connected) 0 (
        []
        ++ (bytes_for 0 (map (notice (λ id. none) stamped) trades)
            ++ (trade_frames trades ++ frame order_ack (id_payload 258))))
process-drain_outbound_queue_example =
    process-drain_outbound_queue clock arrived idle sent connected 0 [] refl refl sent-OrderFits
      sent-IsValid idle-IsSound refl refl connected-Owes
