-- ===== src/Tickets/Shown.antt =====
-- What a caller is told of a ticket after any calls of the tools and any outages of Postgres.
use livekit_agent.Base.{
  ℕ, suc, String, ◌≡◌, refl, subst, sym, ap, ◌∙◌, Bool, true, false, Option, none, some, List, [],
  ◌∷◌, ◌⊎◌, inl, inr, member, if◌then◌else◌,
}
use livekit_agent.Base.Dict.{lookup}
use livekit_agent.Persistence.Uuid.{UuidLib}
use livekit_agent.Persistence.Ticketing.{TicketRow}
use livekit_agent.Tickets.{
  GlpiTicket, new_glpi, ticket_name, new_ticket, create, get, resolve, MirrorEnv, works,
  stored_subject, find_row, mirror_row, mirror_create, mirror_resolve, TicketView, view_found,
  read_status,
}
use livekit_agent.Tickets.Tools.{
  Desk, Confirmation, Opening, new_row, create_ticket, view_ticket, or_mock, get_ticket_status,
  resolve_ticket,
}
use livekit_agent.Tickets.Found.{
  find_row-id, lookup_set-cases, Present, Present-insert, new_ne_resolved, open_ne_resolved,
  add_row-rows, resolved-rows, solve-lookup, solve-Present, closed_here, closed_before,
}

-- A call that changes something, with what it meets.
pub data Call : Type 0 where
  open_call : MirrorEnv → (Confirmation → Option (ℕ × Bool)) → Opening → Call
  close_call : MirrorEnv → MirrorEnv → String → String → Call

-- The tickets that were opened, with their subjects, and the ids that were closed.
pub record Log : Type 0 where
  pub opened : List (String × String)
  pub closed : List String

abbrev pub WasOpened : String → String → List (String × String) → Type 0
WasOpened id subject [] = ⊥
WasOpened id subject ((j, s) ∷ l) = ((j ≡ id) × (s ≡ subject)) ⊎ WasOpened id subject l

abbrev pub WasClosed : String → Log → Type 0
WasClosed id log = member id log.closed ≡ true

-- The client and the mirror agree with the log.
pub record IsBacked (log : Log) (desk : Desk) : Type 0 where
  pub tickets :
      (id : String) (t : GlpiTicket)
      → lookup id desk.glpi.tickets ≡ some t
      → WasOpened id t.subject log.opened
        × (t.ticket_id ≡ id)
        × (t.status ≡ "resolved" → WasClosed id log)
  pub opened :
      (id subject : String) → WasOpened id subject log.opened → Present id desk.glpi.tickets
  pub rows :
      (id : String) (r : TicketRow)
      → find_row id desk.mirror.rows ≡ some r
      → (subject : String) × WasOpened id subject log.opened
        × (r.subject ≡ stored_subject (some subject))
        × (r.status ≡ "resolved" → WasClosed id log)

module _ (uuids : UuidLib) where
  abbrev pub step : Call → Log × Desk → Log × Desk
  step (open_call env notify o) (log, desk) =
      let (answer, desk') = create_ticket uuids env notify o desk in
      (record log { opened = (answer.ticket_id, o.subject) ∷ log.opened }, desk')
  step (close_call env later id resolution) (log, desk) = (
    record log { closed = id ∷ log.closed },
    (resolve_ticket uuids env later id resolution desk).1,
  )

  abbrev pub run : List Call → Log × Desk → Log × Desk
  run [] s = s
  run (c ∷ cs) s = run cs (step c s)

  opened-IsBacked :
      (env : MirrorEnv) (notify : Confirmation → Option (ℕ × Bool)) (o : Opening) (log : Log)
      (desk : Desk)
      → IsBacked log desk
      → let (log', desk') = step (open_call env notify o) (log, desk) in IsBacked log' desk'
  unfolding create_ticket create mirror_create
  opened-IsBacked env notify o log desk h =
      let n = suc desk.glpi.counter in
      let t = new_ticket (ticket_name n) o.customer_id o.subject o.description in
      record {
        tickets = λ id w e. elim (lookup_set-cases (ticket_name n) id t w desk.glpi.tickets e) [
          | inl (same, p) ↦ (
            inl (same, ap (λ (x : GlpiTicket). x.subject) p),
            ap (λ (x : GlpiTicket). x.ticket_id) (sym p) ∙ same,
            λ closed. absurd (new_ne_resolved (ap (λ (x : GlpiTicket). x.status) p ∙ closed)),
          )
          | inr before ↦ let (was, same, closed) = h.tickets id w before in (inr was, same, closed)
        ];
        opened = λ id subject was.
            Present-insert (ticket_name n) id t desk.glpi.tickets (elim was [
              | inl (same, p) ↦ inl same
              | inr before ↦ inr (h.opened id subject before)
            ]);
        rows = λ id r e.
            elim (add_row-rows (works env) _ (mirror_row uuids env.now (new_row o (ticket_name n)))
              desk.mirror id r e) [
                | inl before ↦
                    let (subject, was, same, closed) = h.rows id r before in
                    (subject, inr was, same, closed)
                | inr (same, p) ↦ (
                  o.subject,
                  inl (same, refl),
                  ap (λ (x : TicketRow). x.subject) (sym p),
                  λ closed. absurd (open_ne_resolved (ap (λ (x : TicketRow). x.status) p ∙ closed)),
                )
              ];
      }

  closed-IsBacked :
      (env later : MirrorEnv) (id resolution : String) (log : Log) (desk : Desk)
      → IsBacked log desk
      → let (log', desk') = step (close_call env later id resolution) (log, desk) in
        IsBacked log' desk'
  unfolding resolve_ticket resolve mirror_resolve
  closed-IsBacked env later id resolution log desk h = record {
    tickets = λ other w e. elim (solve-lookup _ id resolution other desk.glpi w refl e) [
      | inl before ↦
          let (was, same, closed) = h.tickets other w before in
          (was, same, λ resolved. closed_before id other log.closed (closed resolved))
      | inr (here, (t, found, subject, name)) ↦
          let (was, same, closed) = h.tickets id t found in
          (
            subst (λ s. WasOpened other s log.opened) (sym subject)
                (subst (λ i. WasOpened i t.subject log.opened) here was),
            name ∙ same ∙ here,
            λ resolved. closed_here id other log.closed here,
          )
    ];
    opened = λ other subject was.
        solve-Present _ id resolution other desk.glpi (h.opened other subject was);
    rows = λ other r e.
        let (old, found, same, status) =
          resolved-rows (works env) env.now id desk.mirror other r e in
        let (subject, was, stored, closed) = h.rows other old found in
        (
          subject,
          was,
          same ∙ stored,
          λ resolved. elim status [
            | inl here ↦ closed_here id other log.closed here
            | inr there ↦ closed_before id other log.closed (closed (sym there ∙ resolved))
          ],
        );
  }

  run-IsBacked :
      (calls : List Call) (log : Log) (desk : Desk)
      → IsBacked log desk
      → let (log', desk') = run calls (log, desk) in IsBacked log' desk'
  run-IsBacked [] log desk h = h
  run-IsBacked (open_call env notify o ∷ calls) log desk h =
      run-IsBacked calls _ _ (opened-IsBacked env notify o log desk h)
  run-IsBacked (close_call env later id resolution ∷ calls) log desk h =
      run-IsBacked calls _ _ (closed-IsBacked env later id resolution log desk h)

  -- What may be answered for an id.
  abbrev pub IsTrue : Log → String → Option TicketView → Type 0
  IsTrue log id none = (subject : String) → ¬ WasOpened id subject log.opened
  IsTrue log id (some v) =
      (v.ticket_id ≡ id)
      × ((subject : String) × WasOpened id subject log.opened
          × ((v.subject ≡ some subject) ⊎ (v.subject ≡ stored_subject (some subject))))
      × (v.status ≡ "resolved" → WasClosed id log)

  mock-IsTrue :
      (log : Log) (desk : Desk) (id : String)
      → IsBacked log desk
      → (o : Option GlpiTicket) → lookup id desk.glpi.tickets ≡ o
      → IsTrue log id (view_ticket uuids o)
  mock-IsTrue log desk id h none e =
      λ subject was. let (t, found) = h.opened id subject was in cc (sym e ∙ found)
  mock-IsTrue log desk id h (some t) e =
      let (was, same, closed) = h.tickets id t e in (same, (t.subject, was, inl refl), closed)

  status-IsTrue :
      (log : Log) (desk : Desk) (id : String)
      → IsBacked log desk
      → (works : Bool) (o : Option TicketRow) → find_row id desk.mirror.rows ≡ o
      → IsTrue log id (or_mock uuids (if works then view_found o else none) (get id desk.glpi))
  status-IsTrue log desk id h false o e = mock-IsTrue log desk id h _ refl
  status-IsTrue log desk id h true none e = mock-IsTrue log desk id h _ refl
  status-IsTrue log desk id h true (some r) e =
      let (subject, was, same, closed) = h.rows id r e in
      (find_row-id id desk.mirror.rows r e, (subject, was, inr same), closed)

-- From a client and a mirror with no tickets, after any calls that open and resolve tickets, while
-- Postgres is up or down at each, a ticket is found exactly when it was opened, under its id; it is
-- shown with the subject that a ticket of that id was opened with, of which the mirror keeps the
-- first 255 characters; and it is shown as resolved only if a call asked for that.
pub get_ticket_status-IsTrue :
    (uuids : UuidLib) (customers subscriptions : List String) (calls : List Call) (env : MirrorEnv)
    (id : String)
    → let empty_desk : Desk = record {
      glpi = new_glpi;
      mirror = record { customers = customers; subscriptions = subscriptions; rows = [] };
    } in
      let (log, desk) = run uuids calls (record { opened = []; closed = [] }, empty_desk) in
      IsTrue uuids log id (get_ticket_status uuids env id desk)
unfolding get_ticket_status read_status
get_ticket_status-IsTrue uuids customers subscriptions calls env id =
    let backed =
      run-IsBacked uuids calls (record { opened = []; closed = [] })
        (record {
          glpi = new_glpi;
          mirror = record { customers = customers; subscriptions = subscriptions; rows = [] };
        })
        (record {
          tickets = λ id t e. cc e;
          opened = λ id subject was. absurd was;
          rows = λ id r e. cc e;
        }) in
    status-IsTrue uuids _ _ id backed (works env) _ refl
