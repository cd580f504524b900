-- ===== src/Exchange/Binance/Streams.antt =====
-- src/exchange/binance.rs: the streams that are subscribed are those that are understood.
use signalguard_rs.Common.{
  String, some, [], ◌∷◌, map, ◌≡◌, refl, arith, concat, to_ascii_lowercase, ends_with-concat,
  ends_with-concat_other, to_ascii_lowercase-concat,
}
use signalguard_rs.Domain.Symbol.{Symbol}
use signalguard_rs.Exchange.Binance.{
  trades, book_ticker, depth_updates, streams_of, classify_stream, is_depth_stream,
}

classify-trades : (lower : String) → classify_stream (concat lower "@trade") ≡ some trades
unfolding classify_stream
classify-trades lower = rw (ends_with-concat lower "@trade") refl

classify-book_ticker :
    (lower : String) → classify_stream (concat lower "@bookTicker") ≡ some book_ticker
unfolding classify_stream
classify-book_ticker lower =
    rw
      (
        ends_with-concat_other lower "@bookTicker" "@trade" refl refl (λ h. ground arith),
        to_ascii_lowercase-concat lower "@bookTicker",
        ends_with-concat (to_ascii_lowercase lower) "@bookticker",
      )
      refl

classify-depth_updates :
    (lower : String) → classify_stream (concat lower "@depth") ≡ some depth_updates
unfolding classify_stream is_depth_stream
classify-depth_updates lower =
    rw
      (
        ends_with-concat_other lower "@depth" "@trade" refl refl (λ h. ground arith),
        to_ascii_lowercase-concat lower "@depth",
        ends_with-concat_other (to_ascii_lowercase lower) "@depth" "@bookticker" refl refl
            (λ h. ground arith),
        ends_with-concat (to_ascii_lowercase lower) "@depth",
      )
      refl

-- Whatever the symbol, the three streams that are subscribed for it are understood as the stream of
-- its trades, of its best bid and ask, and of its depth updates, in this order.
pub classify_stream-streams_of :
    (symbol : Symbol)
    → map classify_stream (streams_of symbol)
      ≡ some trades ∷ some book_ticker ∷ some depth_updates ∷ []
unfolding streams_of
classify_stream-streams_of symbol =
    rw
      (
        classify-trades (to_ascii_lowercase symbol.text),
        classify-book_ticker (to_ascii_lowercase symbol.text),
        classify-depth_updates (to_ascii_lowercase symbol.text),
      )
      refl
