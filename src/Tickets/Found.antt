-- ===== src/Tickets/Found.antt =====
-- What searches find after a change of the client's dict or of the mirror's table.
use text.Mathlib.TextEquality.{eq_iff}
use livekit_agent.Base.{
  ℕ, String, ◌≡◌, ◌≢◌, refl, sym, ap, ◌∙◌, Bool, true, false, Option, none, some, List, [], ◌∷◌,
  ◌++◌, ◌⊎◌, inl, inr, map, member, str_eq, arith, Bool-cases, if◌then◌else◌,
}
use livekit_agent.Base.Dict.{Dict, lookup, insert, lookup-insert}
use livekit_agent.Persistence.Ticketing.{TicketRow}
use livekit_agent.Tickets.{
  GlpiTicket, MockGlpi, solve, Mirror, find_row, can_mirror, add_row, resolve_row,
}

-- The two ways for a search to find its answer.
pick-cases :
    {A : Type 0} (b : Bool) (x r : A) (rest : Option A)
    → (if b then some x else rest) ≡ some r
    → ((b ≡ true) × (x ≡ r)) ⊎ ((b ≡ false) × (rest ≡ some r))
pick-cases true x r rest e = inl (refl, cc e)
pick-cases false x r rest e = inr (refl, e)

pub find_row-id :
    (id : String) (rows : List TicketRow) (r : TicketRow)
    → find_row id rows ≡ some r
    → r.glpi_ticket_id ≡ id
find_row-id id [] r e = cc e
find_row-id id (x ∷ rows) r e =
    elim (pick-cases (str_eq x.glpi_ticket_id id) x r (find_row id rows) e) [
      | inl (same, p) ↦
          ap (λ (y : TicketRow). y.glpi_ticket_id) (sym p) ∙ (eq_iff x.glpi_ticket_id id).0 same
      | inr (other, q) ↦ find_row-id id rows r q
    ]

find_row-append :
    (id : String) (rows : List TicketRow) (x r : TicketRow)
    → find_row id (rows ++ x ∷ []) ≡ some r
    → (find_row id rows ≡ some r) ⊎ ((x.glpi_ticket_id ≡ id) × (x ≡ r))
find_row-append id [] x r e = elim (pick-cases (str_eq x.glpi_ticket_id id) x r none e) [
  | inl (same, p) ↦ inr ((eq_iff x.glpi_ticket_id id).0 same, p)
  | inr (other, q) ↦ inl q
]
find_row-append id (y ∷ rows) x r e =
    elim (pick-cases (str_eq y.glpi_ticket_id id) y r (find_row id (rows ++ x ∷ [])) e) [
      | inl (same, p) ↦ inl (rw same (ap (λ (z : TicketRow). some z) p))
      | inr (other, q) ↦ elim (find_row-append id rows x r q) [
        | inl found ↦ inl (rw other found)
        | inr last ↦ inr last
      ]
    ]

resolve_row-id :
    (now : ℕ) (id : String) (r : TicketRow)
    → (resolve_row now id r).glpi_ticket_id ≡ r.glpi_ticket_id
resolve_row-id now id r = elim (Bool-cases (str_eq r.glpi_ticket_id id)) [
  | inl e ↦ rw e refl
  | inr e ↦ rw e refl
]

resolve_row-subject :
    (now : ℕ) (id : String) (r : TicketRow) → (resolve_row now id r).subject ≡ r.subject
resolve_row-subject now id r = elim (Bool-cases (str_eq r.glpi_ticket_id id)) [
  | inl e ↦ rw e refl
  | inr e ↦ rw e refl
]

find_row-map :
    (now : ℕ) (id other : String) (rows : List TicketRow) (r : TicketRow)
    → find_row other (map (resolve_row now id) rows) ≡ some r
    → (old : TicketRow) × (find_row other rows ≡ some old) × (resolve_row now id old ≡ r)
find_row-map now id other [] r e = cc e
find_row-map now id other (x ∷ rows) r e =
    let same_id : str_eq (resolve_row now id x).glpi_ticket_id other
        ≡ str_eq x.glpi_ticket_id other =
      ap (λ i. str_eq i other) (resolve_row-id now id x) in
    elim (pick-cases (str_eq (resolve_row now id x).glpi_ticket_id other) (resolve_row now id x) r
      (find_row other (map (resolve_row now id) rows)) e) [
        | inl (same, p) ↦ (x, rw (sym same_id ∙ same) refl, p)
        | inr (differ, q) ↦
            let (old, found, p) = find_row-map now id other rows r q in
            (old, rw (sym same_id ∙ differ) found, p)
      ]

-- What a look in the dict after a set finds, and that it finds what it found before.
pub lookup_set-cases :
    (k j : String) (v w : GlpiTicket) (d : Dict GlpiTicket)
    → lookup j (insert k v d) ≡ some w
    → ((k ≡ j) × (v ≡ w)) ⊎ (lookup j d ≡ some w)
lookup_set-cases k j v w d e =
    elim (pick-cases (str_eq k j) v w (lookup j d) (sym (lookup-insert k j v d) ∙ e)) [
      | inl (same, p) ↦ inl ((eq_iff k j).0 same, p)
      | inr (differ, q) ↦ inr q
    ]

abbrev pub Present : String → Dict GlpiTicket → Type 0
Present id d = (t : GlpiTicket) × (lookup id d ≡ some t)

pub Present-insert :
    (k j : String) (v : GlpiTicket) (d : Dict GlpiTicket)
    → (k ≡ j) ⊎ Present j d
    → Present j (insert k v d)
Present-insert k j v d h = elim (Bool-cases (str_eq k j)) [
  | inl same ↦ (v, lookup-insert k j v d ∙ ap (λ b. if b then some v else lookup j d) same)
  | inr differ ↦ elim h [
    | inl p ↦ absurd (ground (arith, differ, (eq_iff k j).1 p))
    | inr (t, found) ↦
        (t, lookup-insert k j v d ∙ ap (λ b. if b then some v else lookup j d) differ ∙ found)
  ]
]

pub new_ne_resolved : ◌≢◌ {A = String} "new" "resolved"
new_ne_resolved e = cc e

pub open_ne_resolved : ◌≢◌ {A = String} "open" "resolved"
open_ne_resolved e = cc e

-- A row after an insertion is an old one or the new one.
added-rows :
    (ok : Bool) (x : TicketRow) (m : Mirror) (id : String) (r : TicketRow)
    → find_row id (if ok then record m { rows = m.rows ++ x ∷ [] } else m).rows ≡ some r
    → (find_row id m.rows ≡ some r) ⊎ ((x.glpi_ticket_id ≡ id) × (x ≡ r))
added-rows true x m id r e = find_row-append id m.rows x r e
added-rows false x m id r e = inl e

pub add_row-rows :
    (works : Bool) (old : Option TicketRow) (x : TicketRow) (m : Mirror) (id : String)
    (r : TicketRow)
    → find_row id (if works then add_row old x m else m).rows ≡ some r
    → (find_row id m.rows ≡ some r) ⊎ ((x.glpi_ticket_id ≡ id) × (x ≡ r))
add_row-rows false old x m id r e = inl e
add_row-rows true (some old) x m id r e = inl e
add_row-rows true none x m id r e = added-rows (can_mirror m x) x m id r e

-- A row after `mirror_resolve` is an old one, or an old one that is resolved.
pub resolved-rows :
    (works : Bool) (now : ℕ) (id : String) (m : Mirror) (other : String) (r : TicketRow)
    → find_row other (if works then record m { rows = map (resolve_row now id) m.rows } else m).rows
      ≡ some r
    → (old : TicketRow) × (find_row other m.rows ≡ some old)
      × (r.subject ≡ old.subject)
      × ((id ≡ other) ⊎ (r.status ≡ old.status))
resolved-rows false now id m other r e = (r, e, refl, inr refl)
resolved-rows true now id m other r e =
    let (old, found, p) = find_row-map now id other m.rows r e in
    (
      old,
      found,
      sym (ap (λ (x : TicketRow). x.subject) p) ∙ resolve_row-subject now id old,
      elim (Bool-cases (str_eq old.glpi_ticket_id id)) [
        | inl same ↦
            inl (sym ((eq_iff old.glpi_ticket_id id).0 same) ∙ find_row-id other m.rows old found)
        | inr differ ↦ inr (
            sym (ap (λ (x : TicketRow). x.status) p)
            ∙ ap
                (λ (b : Bool).
                  (if b
                    then record old { status = "resolved"; last_synced_at = now }
                    else old).status)
                differ)
      ],
    )

-- A look in the dict after a ticket is solved, and before.
pub solve-lookup :
    (o : Option GlpiTicket) (id resolution other : String) (g : MockGlpi) (w : GlpiTicket)
    → lookup id g.tickets ≡ o
    → lookup other (solve o id resolution g).1.tickets ≡ some w
    → (lookup other g.tickets ≡ some w)
      ⊎ ((id ≡ other)
          × ((t : GlpiTicket) × (lookup id g.tickets ≡ some t)
              × (w.subject ≡ t.subject)
              × (w.ticket_id ≡ t.ticket_id)))
solve-lookup none id resolution other g w found e = inl e
solve-lookup (some t) id resolution other g w found e =
    elim (lookup_set-cases id other (record t { status = "resolved"; resolution = some resolution })
      w g.tickets e) [
        | inl (same, p) ↦ inr (
          same,
          (
            t,
            found,
            ap (λ (x : GlpiTicket). x.subject) (sym p),
            ap (λ (x : GlpiTicket). x.ticket_id) (sym p),
          ),
        )
        | inr before ↦ inl before
      ]

pub solve-Present :
    (o : Option GlpiTicket) (id resolution other : String) (g : MockGlpi)
    → Present other g.tickets
    → Present other (solve o id resolution g).1.tickets
solve-Present none id resolution other g h = h
solve-Present (some t) id resolution other g h =
    Present-insert id other (record t { status = "resolved"; resolution = some resolution })
      g.tickets (inr h)

pub closed_here :
    (id other : String) (closed : List String) → id ≡ other → member other (id ∷ closed) ≡ true
closed_here id other closed p = ground (arith, (eq_iff id other).1 p)

pub closed_before :
    (id other : String) (closed : List String)
    → member other closed ≡ true
    → member other (id ∷ closed) ≡ true
closed_before id other closed h = ground (arith, h)
