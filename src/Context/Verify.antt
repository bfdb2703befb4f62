-- ===== src/Context/Verify.antt =====
-- What answer the step-up check takes.
use Prim.Native.Char.{Char}
use Prim.Native.String.{String, count, [] as empty, ◌∷◌ as char_cons}
use mathlib.Core.Bool.{true≢false}
use text.Mathlib.TextLemmas.{length-cons}
use livekit_agent.Base.{
  suc, ◌≤◌, ◌≡◌, refl, sym, subst, ◌∙◌, true, false, some, inl, inr, str_eq, leb, arith, eq_iff,
  if◌then◌else◌, Bool-cases, Option-cases,
}
use livekit_agent.Persistence.Crm.{Customer, Crm}
use livekit_agent.Context.{ReadEnv, last_four, verify_answer, get_customer, verify_identity}

-- The second text is what is left of the first without some characters at its front.
pub data EndsWith : String → String → Type 0 where
  whole : (s : String) → EndsWith s s
  later : {s t : String} (c : Char) → EndsWith s t → EndsWith (char_cons c s) t

-- The end of a text, at most four characters, and four where there are four.
pub record IsEnding (s t : String) : Type 0 where
  pub ends : EndsWith s t
  pub short : count t ≤ 4
  pub full : (4 ≤ count s → count t ≡ 4) × (count s ≤ 4 → t ≡ s)

last_four-IsEnding : (s : String) → IsEnding s (last_four s)
last_four-IsEnding empty = record {
  ends = whole "";
  short = omega arith;
  full = ((λ h. omega (arith, h)), λ h. refl);
}
last_four-IsEnding (char_cons c s) = elim (Bool-cases (leb (count (char_cons c s)) 4)) [
  | inl e ↦ rw e (record {
    ends = whole (char_cons c s);
    short = ground (arith, e);
    full = ((λ h. ground (arith, e, h)), λ h. refl);
  })
  | inr e ↦
      let r = last_four-IsEnding s in
      let size : count (char_cons c s) ≡ suc (count s) = length-cons c s in
      rw e (record {
        ends = later c r.ends;
        short = r.short;
        full = ((λ h. r.full.0 (ground (arith, e, size))), λ h. absurd (ground (arith, e, h)));
      })
]

-- An answer that the step-up check takes for a customer on file.
pub record IsKnown (env : ReadEnv) (customer_id answer : String) (crm : Crm) : Type 0 where
  pub customer : Customer
  pub found : get_customer customer_id crm.customers ≡ some customer
  pub has_id : str_eq customer.national_id "" ≡ false
  pub ending : IsEnding customer.national_id (env.strip answer)

-- The check takes an answer only for a customer on file whose national id is not empty, and then
-- the answer, stripped, is the last four characters of that id, or all of it if it is shorter.
pub verify_identity-IsKnown :
    (env : ReadEnv) (customer_id answer : String) (crm : Crm)
    → verify_identity env customer_id answer crm ≡ true
    → IsKnown env customer_id answer crm
unfolding verify_identity verify_answer
verify_identity-IsKnown env customer_id answer crm v =
    elim (Option-cases (get_customer customer_id crm.customers)) [
      | inl absent ↦ absurd (true≢false (sym v ∙ rw (absent, verify_identity) refl))
      | inr (c, found) ↦
          let h : (if str_eq c.national_id ""
                then false
                else str_eq (env.strip answer) (last_four c.national_id))
              ≡ true =
            sym (rw (found, verify_identity) refl) ∙ v in
          let same : env.strip answer ≡ last_four c.national_id =
            ground (arith, h, eq_iff (env.strip answer) (last_four c.national_id)) in
          record {
            customer = c;
            found = found;
            has_id = ground (arith, h);
            ending = subst (IsEnding c.national_id) (sym same) (last_four-IsEnding c.national_id);
          }
    ]
