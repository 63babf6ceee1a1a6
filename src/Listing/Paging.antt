-- ===== src/Listing/Paging.antt =====
-- Paging in src/processes/list.cpp: with a server that lists the names behind the marker, the pages are
-- all the names.
use cdnalizerd.Base.{
  ge→ltb, flat, ℕ, zero, suc, ◌+◌, ◌*◌, ◌≤◌, ◌<◌, ◌≡◌, inl, inr, refl, sym, ap, subst, ◌∙◌, false,
  List, [], ◌∷◌, ◌++◌, Option, some, arith, ◌==◌, Bool-cases, length, length-append, take, drop,
  Each, append_assoc, append-nil,
}
use cdnalizerd.Base.Text.{Text}
use cdnalizerd.Url.Parser.{Url}
use cdnalizerd.Listing.{
  PageRequest, PageReply, Server, Pages, no_page, json_payload, page_target, turn, turn_of_body,
  after_turn, next_marker, fetch_pages, do_get_pages, gives,
}
use cdnalizerd.Listing.Names.{
  IsName, IsPlain, next_marker-IsPlain, IsAscending, body_of, behind, split_lines-body_of,
  Each-front, Each-back, behind-marker, next_marker-append, take-append-drop, take_short,
}

-- What the loop does: a run that gives out `names` in order, with no exception, in as few requests as
-- pages of `size` names allow.
record IsComplete (size : ℕ) (names : List Text) (outcome : Option Pages) : Type 0 where
  run : Pages
  ends : outcome ≡ some run
  complete : flat run.pages ≡ names
  quiet : run.thrown ≡ false
  few : length run.requests * size ≤ length names + size

-- A page of names: with none there is no content.
abbrev pub page_reply : List Text → PageReply
page_reply [] = record { status = 204; body = [] }
page_reply (t ∷ ts) = record { status = 200; body = body_of (t ∷ ts) }

module _ (S : Server) (base : Url) (token prefix container extra : Text) (names : List Text) where
  abbrev request_at : Text → PageRequest
  request_at marker = record {
    host = base.host;
    target = page_target base container marker prefix extra;
    token = token;
  }

  -- The server answers a request whose marker needs no percent sign, as there is none, with the names
  -- behind the marker, at most `size` of them.
  abbrev pub IsPaging : ℕ → Type 0
  IsPaging size =
      (marker : Text) (w : S.World)
      → IsPlain marker
      → (S.exchange (request_at marker) w).0 ≡ some (page_reply (take size (behind marker names)))

  page_reply-filled :
      (size : ℕ) (t : Text) (ts : List Text)
      → 0 < size
      → page_reply (take size (t ∷ ts))
        ≡ record { status = 200; body = body_of (take size (t ∷ ts)) }
  page_reply-filled zero t ts h = absurd (omega (arith, h))
  page_reply-filled (suc size) t ts h = refl

  -- What the server says at the marker behind `pre`.
  reply_at :
      (size : ℕ) (pre rest : List Text) (w : S.World)
      → names ≡ pre ++ rest
      → IsAscending names
      → Each IsName names
      → IsPaging size
      → (S.exchange (request_at (next_marker [] pre)) w).0 ≡ some (page_reply (take size rest))
  reply_at size pre rest w e a n s =
      let all = subst (Each IsName) e n in
      let there : behind (next_marker [] pre) names ≡ rest =
        ap (behind (next_marker [] pre)) e
        ∙ behind-marker pre rest (Each-back IsName pre rest all) (subst IsAscending e a) in
      s (next_marker [] pre) w (next_marker-IsPlain [] pre tt (Each-front IsName pre rest all))
      ∙ ap (λ t. some (page_reply (take size t))) there

  turn_empty :
      (size : ℕ) (pre : List Text) (w : S.World)
      → names ≡ pre ++ []
      → IsAscending names
      → Each IsName names
      → IsPaging size
      → turn S json_payload (next_marker [] pre) (S.exchange (request_at (next_marker [] pre)) w).0
        ≡ no_page
  unfolding turn
  turn_empty size pre w e a n s =
      ap (turn S json_payload (next_marker [] pre))
        (reply_at size pre [] w e a n s ∙ ap (λ t. some (page_reply t)) (take-nil size))
    where
      take-nil : (k : ℕ) → take {A = Text} k [] ≡ []
      take-nil zero = refl
      take-nil (suc k) = refl

  turn_page :
      (marker : Text) (page : List Text)
      → Each IsName page
      → turn S json_payload marker (some (record { status = 200; body = body_of page }))
        ≡ gives page (next_marker marker page) (1 + length page)
  unfolding turn turn_of_body
  turn_page marker page h = rw (split_lines-body_of page h) refl

  turn_at :
      (size : ℕ) (pre : List Text) (first : Text) (others : List Text) (w : S.World)
      → 0 < size
      → names ≡ pre ++ first ∷ others
      → IsAscending names
      → Each IsName names
      → IsPaging size
      → turn S json_payload (next_marker [] pre) (S.exchange (request_at (next_marker [] pre)) w).0
        ≡ gives
            (take size (first ∷ others))
            (next_marker [] (pre ++ take size (first ∷ others)))
            (1 + length (take size (first ∷ others)))
  turn_at size pre first others w h e a n s =
      let rest = first ∷ others in
      let marker = next_marker [] pre in
      let reply =
        reply_at size pre rest w e a n s ∙ ap some (page_reply-filled size first others h) in
      let page_names : Each IsName (take size rest) =
        Each-front IsName (take size rest) (drop size rest) (
          subst (Each IsName) (sym (take-append-drop size rest))
            (Each-back IsName pre rest (subst (Each IsName) e n))) in
      ap (turn S json_payload marker) reply
      ∙ turn_page marker (take size rest) page_names
      ∙ ap (λ m. gives (take size rest) m (1 + length (take size rest)))
          (sym (next_marker-append [] pre (take size rest)))

  fetch_pages-IsComplete :
      (size fuel : ℕ) (pre rest : List Text) (w : S.World)
      → 0 < size
      → length rest < fuel
      → names ≡ pre ++ rest
      → IsAscending names
      → Each IsName names
      → IsPaging size
      → IsComplete size rest (
          fetch_pages S
            (suc size)
            json_payload
            fuel
            token
            base
            prefix
            container
            extra
            (next_marker [] pre)
            w)
  unfolding fetch_pages after_turn
  fetch_pages-IsComplete size zero pre rest w h k e a n s = absurd (omega (arith, k))
  fetch_pages-IsComplete size (suc fuel) pre [] w h k e a n s = record {
    run = record { requests = request_at (next_marker [] pre) ∷ []; pages = []; thrown = false };
    ends =
        rw (turn_empty size pre w e a n s, after_turn, ge→ltb (suc size) 1 (omega (arith, h))) refl;
    complete = refl;
    quiet = refl;
    few = omega arith;
  }
  fetch_pages-IsComplete size (suc fuel) pre (first ∷ others) w h k e a n s =
      let rest = first ∷ others in
      elim (Bool-cases (1 + length (take size rest) == suc size)) [
        | inr q ↦
            let (all, short) = take_short size rest (λ p. ground arith) in
            record {
              run = record {
                requests = request_at (next_marker [] pre) ∷ [];
                pages = take size rest ∷ [];
                thrown = false;
              };
              ends =
                  rw
                    (
                      turn_at size pre first others w h e a n s,
                      after_turn,
                      q,
                      ge→ltb (suc size) (1 + length (take size rest))
                          (omega (arith, ap length all)),
                    )
                    refl;
              complete = append-nil (take size rest) ∙ all;
              quiet = refl;
              few = omega arith;
            }
        | inl q ↦
            let full : length (take size rest) ≡ size = ground arith in
            let split = take-append-drop size rest in
            let sum : length rest ≡ size + length (drop size rest) =
              omega (
                arith,
                ap length split,
                length-append {0} (take size rest) (drop size rest),
                full,
              ) in
            let onward : names ≡ (pre ++ take size rest) ++ drop size rest =
              e
              ∙ ap (◌++◌ pre) (sym split)
              ∙ sym (append_assoc pre (take size rest) (drop size rest)) in
            let later =
              fetch_pages-IsComplete size fuel (pre ++ take size rest) (drop size rest)
                (S.exchange (request_at (next_marker [] pre)) w).1 h (omega (arith, sum, k, h))
                onward a n s in
            record {
              run = record {
                requests = request_at (next_marker [] pre) ∷ later.run.requests;
                pages = take size rest ∷ later.run.pages;
                thrown = later.run.thrown;
              };
              ends = rw (turn_at size pre first others w h e a n s, after_turn, q, later.ends) refl;
              complete = ap (◌++◌ (take size rest)) later.complete ∙ split;
              quiet = later.quiet;
              few = grind (arith, sum, later.few);
            }
      ]

  -- Take names that ascend, are not empty, and hold only characters that need no percent sign in a
  -- query. Take a server that answers a request whose marker holds only such characters with the names
  -- behind the marker, one on a line and at most 10000 of them, and with 204 if there are none. Then
  -- doGetPages for JSON ends, for any fuel above the number of the names, without an exception; its
  -- pages hold exactly the names, in order; and with n names it sends at most n / 10000 + 1 requests.
  pub do_get_pages_complete :
      (fuel : ℕ) (w : S.World)
      → length names < fuel
      → IsAscending names
      → Each IsName names
      → IsPaging 10000
      → (r : Pages) × (do_get_pages S json_payload fuel token base prefix container extra w
          ≡ some r)
        × (flat r.pages ≡ names)
        × (r.thrown ≡ false)
        × (length r.requests * 10000 ≤ length names + 10000)
  unfolding do_get_pages
  do_get_pages_complete fuel w k a n s =
      let c = fetch_pages-IsComplete 10000 fuel [] names w (omega arith) k refl a n s in
      (c.run, c.ends, c.complete, c.quiet, c.few)
