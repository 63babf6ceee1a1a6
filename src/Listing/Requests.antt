-- ===== src/Listing/Requests.antt =====
-- What `listContainer` of src/processes/list.cpp asks of the server, and what comes of it.
use cdnalizerd.Base.{
  ℕ, suc, ◌≡◌, ◌≢◌, ◌↔◌, ◌⊎◌, inl, inr, refl, sym, ap, Bool, true, false, [], ◌∷◌, ◌++◌, Option,
  none, some, arith, ◌==◌, ==_iff, if◌then◌else◌, append-nil, append_assoc, Bool-cases,
}
use cdnalizerd.Base.Text.{Text, codes, is_empty}
use cdnalizerd.Config.{ConfigEntry}
use cdnalizerd.Url.Parser.{Url}
use cdnalizerd.Account.{Rackspace, get_url}
use cdnalizerd.Listing.{
  page_target, PageRequest, PageReply, Server, no_page, throws, lines_payload, turn, turn_of_body,
  after_turn, fetch_pages, do_get_pages, do_get_entries, list_container,
}

-- The request for the first page with no container: its target is the account's path with a slash.
abbrev pub account_request : Text → Url → Text → PageRequest
account_request token base prefix = record {
  host = base.host;
  target =
      base.path
      ++ codes "/?limit=10001"
      ++ (if is_empty prefix then [] else codes "&prefix=" ++ prefix);
  token = token;
}

account_request_lem :
    (token : Text) (base : Url) (prefix : Text)
    → account_request token base prefix
      ≡ record { host = base.host; target = page_target base [] [] prefix []; token = token }
unfolding page_target
account_request_lem token base prefix =
    ap (λ t. record { host = base.host; target = t; token = token })
      (simp (append_assoc, append-nil))

true_not_false : true ≢ false
true_not_false h = cc

-- The reply is of status 204.
abbrev pub IsEmptyReply : Option PageReply → Type 0
IsEmptyReply reply = (r : PageReply) × (reply ≡ some r) × (r.status ≡ 204)

module _ (S : Server) (strict : (body : Text) → S.json_to_lines body ≡ none) where
  turn_lines :
      (marker : Text) (reply : Option PageReply)
      → ((turn S lines_payload marker reply ≡ no_page) × IsEmptyReply reply)
        ⊎ ((turn S lines_payload marker reply ≡ throws) × (IsEmptyReply reply → ⊥))
  unfolding turn turn_of_body
  turn_lines marker none = inr (refl, λ (r, e, s). cc)
  turn_lines marker (some r) = elim (Bool-cases (r.status == 200)) [
    | inl p ↦ inr (rw (p, strict r.body, turn_of_body) refl, λ (q, e, s). ground arith)
    | inr p ↦ elim (Bool-cases (r.status == 204)) [
      | inl q ↦ inl (rw (p, q) refl, (r, refl, (==_iff r.status 204).0 q))
      | inr q ↦ inr (rw (p, q) refl, λ (q', e, s). ground arith)
    ]
  ]

  fetch_page-empty :
      (limit fuel : ℕ) (token : Text) (base : Url) (prefix container extra marker : Text)
      (w : S.World) (request : PageRequest)
      → request ≡ record {
        host = base.host;
        target = page_target base container marker prefix extra;
        token = token;
      }
      → turn S lines_payload marker (S.exchange request w).0 ≡ no_page
      → fetch_pages S
          (suc limit)
          lines_payload
          (suc fuel)
          token
          base
          prefix
          container
          extra
          marker
          w
        ≡ some (record { requests = request ∷ []; pages = []; thrown = false })
  unfolding fetch_pages after_turn
  fetch_page-empty limit fuel token base prefix container extra marker w request e t =
      rw (sym e, t, after_turn) (ground arith)

  fetch_page-throws :
      (limit fuel : ℕ) (token : Text) (base : Url) (prefix container extra marker : Text)
      (w : S.World) (request : PageRequest)
      → request ≡ record {
        host = base.host;
        target = page_target base container marker prefix extra;
        token = token;
      }
      → turn S lines_payload marker (S.exchange request w).0 ≡ throws
      → fetch_pages S
          (suc limit)
          lines_payload
          (suc fuel)
          token
          base
          prefix
          container
          extra
          marker
          w
        ≡ some (record { requests = request ∷ []; pages = []; thrown = true })
  unfolding fetch_pages after_turn
  fetch_page-throws limit fuel token base prefix container extra marker w request e t =
      rw (sym e, t, after_turn) refl

  -- When a JSON string cannot be made into a vector, as the JSON library documents, listing a
  -- container never gives out a page. It sends one request, for the account and not for the
  -- container, and ends without an exception exactly if the reply has the status 204.
  pub list_container-no_entries :
      {Regex : Type 0} (fuel : ℕ) (rs : Rackspace) (entry : ConfigEntry Regex) (base : Url)
      (w : S.World)
      → get_url rs entry.region entry.snet ≡ some base
      → let request = account_request rs.token base entry.remote_dir in
        (thrown : Bool) × (list_container S (suc fuel) rs entry [] w
          ≡ some (record { requests = request ∷ []; pages = []; thrown = thrown }))
        × ((thrown ≡ false) ↔ IsEmptyReply (S.exchange request w).0)
  unfolding list_container do_get_entries do_get_pages page_target
  list_container-no_entries fuel rs entry base w url =
      let request = account_request rs.token base entry.remote_dir in
      elim (turn_lines [] (S.exchange request w).0) [
        | inl (t, s) ↦ (
          false,
          rw (url, list_container)
              (fetch_page-empty 10000 fuel rs.token base entry.remote_dir [] [] [] w request
                (account_request_lem rs.token base entry.remote_dir) t),
          (λ _. s, λ _. refl),
        )
        | inr (t, s) ↦ (
          true,
          rw (url, list_container)
              (fetch_page-throws 10000 fuel rs.token base entry.remote_dir [] [] [] w request
                (account_request_lem rs.token base entry.remote_dir) t),
          (λ e. absurd (true_not_false e), λ e. absurd (s e)),
        )
      ]
