-- ===== src/Decoder/Life/Stop.antt =====
-- What the stop of the decoder deletes.
use qcap_demos.Prelude.{
  ℕ, ◌+◌, ◌≡◌, refl, Bool, true, false, List, [], ◌∷◌, ◌++◌, if◌then◌else◌, arith,
}
use qcap_demos.Decoder.{
  Object, event, handlers, pool, decoder, Call, stop, delete, Session, stopped, stop_async_calls,
  without_async, stop_vdec_decoder,
}
use qcap_demos.Decoder.Life.{idle, created, deleted, held, created-append, deleted-append}

module _ (weight : Object → ℕ) where
  stopped-if :
      (b : Bool) (o : Object)
      → (created weight (if b then stopped o else []) ≡ 0)
        × (deleted weight (if b then stopped o else []) ≡ (if b then weight o else 0))
  stopped-if true o = (refl, omega arith)
  stopped-if false o = (refl, refl)

  abbrev decoder_calls : Bool → Bool → List Call
  decoder_calls has started =
      if has then (if started then stop decoder ∷ [] else []) ++ delete decoder ∷ [] else []

  decoder_calls_lem :
      (has started : Bool)
      → (created weight (decoder_calls has started) ≡ 0)
        × (deleted weight (decoder_calls has started) ≡ (if has then weight decoder else 0))
  decoder_calls_lem true true = (refl, omega arith)
  decoder_calls_lem true false = (refl, omega arith)
  decoder_calls_lem false started = (refl, refl)

  stop_async_calls_lem :
      (s : Session)
      → (created weight (stop_async_calls s) ≡ 0)
        × (deleted weight (stop_async_calls s)
            ≡ (if s.has_handlers then weight handlers else 0)
              + (if s.has_pool then weight pool else 0)
              + (if s.has_event then weight event else 0))
  unfolding stop_async_calls
  stop_async_calls_lem s =
      let h = if s.has_handlers then stopped handlers else [] in
      let p = if s.has_pool then stopped pool else [] in
      let e = if s.has_event then stopped event else [] in
      let hl = stopped-if s.has_handlers handlers in
      let pl = stopped-if s.has_pool pool in
      let el = stopped-if s.has_event event in
      (
        omega
            (arith, created-append weight h (p ++ e), created-append weight p e, hl.0, pl.0, el.0),
        omega
            (arith, deleted-append weight h (p ++ e), deleted-append weight p e, hl.1, pl.1, el.1),
      )

  abbrev freed_if : Bool → Session → Session
  freed_if has s =
      let joined = record s { has_handlers = false } in
      if has then record joined { has_decoder = false; vdec_started = false } else joined

  freed_if_lem :
      (has : Bool) (s : Session)
      → s.has_decoder ≡ has
      → (s.has_decoder ≡ false → s.vdec_started ≡ false)
      → (without_async (freed_if has s) ≡ idle)
        × (created weight (stop_async_calls (freed_if has s)) ≡ 0)
        × (deleted weight (stop_async_calls (freed_if has s))
            ≡ (if s.has_pool then weight pool else 0) + (if s.has_event then weight event else 0))
  freed_if_lem true s e h =
      let l = stop_async_calls_lem (freed_if true s) in (refl, l.0, omega (arith, l.1))
  freed_if_lem false s e h =
      let l = stop_async_calls_lem (freed_if false s) in (rw (e, h e) refl, l.0, omega (arith, l.1))

  -- The stop deletes each object that is held, makes none, and leaves none; the decoder's objects
  -- are held no more and neither flag is set, if a decoder is started only while it is held.
  pub stop_vdec_decoder_lem :
      (s : Session)
      → (s.has_decoder ≡ false → s.vdec_started ≡ false)
      → let done = stop_vdec_decoder s in
        (done.0 ≡ idle) × (created weight done.1 ≡ 0) × (deleted weight done.1 ≡ held weight s)
  unfolding stop_vdec_decoder
  stop_vdec_decoder_lem s h =
      let hc = if s.has_handlers then stopped handlers else [] in
      let dc = decoder_calls s.has_decoder s.vdec_started in
      let ac = stop_async_calls (freed_if s.has_decoder s) in
      let hl = stopped-if s.has_handlers handlers in
      let dl = decoder_calls_lem s.has_decoder s.vdec_started in
      let al = freed_if_lem s.has_decoder s refl h in
      (
        al.0,
        omega (
          arith,
          created-append weight hc (dc ++ ac),
          created-append weight dc ac,
          hl.0,
          dl.0,
          al.1,
        ),
        omega (
          arith,
          deleted-append weight hc (dc ++ ac),
          deleted-append weight dc ac,
          hl.1,
          dl.1,
          al.2,
        ),
      )
