-- ===== src/Dashboard/Windows/Kept.antt =====
-- The payloads that are kept have different data, stand for every window, and name the primary one.
use text.Mathlib.TextEquality.{eq_iff}
use mathlib.Core.List.Memᴰ
use codewatch.Base.{
  arith, insert, JsMap, ◌==◌, lookup-insert, sym, ap, not-Memᴰ-nil, ◌∙◌, contains_iff, Memᴰ-cons,
  refl, eqb_iff, eqb, inr, Memᴰ-append, true, [], inl, Bool-cases, none, false, ◌∷◌, ◌++◌, ◌≢◌,
  Bool, Option, contains, string_eq, ◌⊎◌, Memᴰ, some, ◌≡◌, lookup, String, List,
}
use codewatch.Dashboard.Payload.{PayloadOptions, Comparisons, DashboardPayload}
use codewatch.Dashboard.Windows.{
  window_signature, same_window, keep_window, context_for, window_step, ChurnWindow, WindowState,
  WindowReads, window_key, payload_in,
}
use codewatch.Dashboard.Windows.Keys.{same_window_iff, window_key-eq, window_eq}

pub not_both : (b : Bool) → b ≡ false → b ≢ true
not_both b h k = cc

pub opt_cases {ℓ} : {A : Type ℓ} (o : Option A) → (o ≡ none) ⊎ ((a : A) × (o ≡ some a))
opt_cases none = inl refl
opt_cases (some a) = inr (a, refl)

module _ {V : Type 0} (m : JsMap String V) where
  at_new : (j k : String) (v p : V) → j == k ≡ true → lookup (insert m j v) k ≡ some p → v ≡ p
  at_new j k v p t l = ground (arith, lookup-insert m j k v, t, l)

  at_old :
      (j k : String) (v p : V)
      → j == k ≡ false
      → lookup (insert m j v) k ≡ some p
      → lookup m k ≡ some p
  at_old j k v p f l = ground (arith, lookup-insert m j k v, f, l)

  put_new : (j : String) (v : V) → lookup (insert m j v) j ≡ some v
  put_new j v = ground (arith, lookup-insert m j j v, eq_iff j j)

  put_old :
      (j k : String) (v p : V)
      → lookup m j ≡ none
      → lookup m k ≡ some p
      → lookup (insert m j v) k ≡ some p
  put_old j k v p free l = ground (arith, lookup-insert m j k v, eq_iff j k, free, l)

in_concat :
    (done : List ChurnWindow) (w v : ChurnWindow) → Memᴰ v (done ++ w ∷ []) → Memᴰ v done ⊎ (v ≡ w)
in_concat done w v m = elim ((Memᴰ-append v done (w ∷ [])).0 m) [
  | inl old ↦ inl old
  | inr last ↦ elim ((Memᴰ-cons v w []).0 last) [
    | inl e ↦ inr e
    | inr none_left ↦ absurd (not-Memᴰ-nil v none_left)
  ]
]

module _ {S : Type 0} (by : Comparisons S) (reads : WindowReads S) (opts : PayloadOptions)
    (primary : ChurnWindow) where
  -- The payload of a window, with the context of its own snapshot.
  abbrev pub payload_of : ChurnWindow → DashboardPayload S
  payload_of w = payload_in by reads opts primary (reads.context (reads.report w).snapshot_id) w

  abbrev pub signature_of : ChurnWindow → String
  signature_of w = window_signature reads (payload_of w)

  -- `done` are the windows that the loop is through with.
  pub record IsKept (done : List ChurnWindow) (s : WindowState S) : Type 0 where
    pub from_window :
        (k : String) (p : DashboardPayload S)
        → lookup s.windows k ≡ some p
        → (w : ChurnWindow) × Memᴰ w done
          × (window_key w ≡ k)
          × (payload_of w ≡ p)
          × (lookup s.sig_to_key (window_signature reads p) ≡ some k)
    pub to_window :
        (sig k : String)
        → lookup s.sig_to_key sig ≡ some k
        → (p : DashboardPayload S) × (lookup s.windows k ≡ some p)
          × (window_signature reads p ≡ sig)
    pub covered :
        (w : ChurnWindow)
        → Memᴰ w done
        → (k : String) × (lookup s.sig_to_key (signature_of w) ≡ some k)
    pub names_primary :
        Memᴰ primary done → lookup s.sig_to_key (signature_of primary) ≡ some s.primary_key
    pub context_kept : (s.snapshot_id ≡ 0) ⊎ (s.snap_ctx ≡ reads.context s.snapshot_id)

  context_for-fresh :
      (done : List ChurnWindow) (s : WindowState S) (w : ChurnWindow)
      → IsKept done s
      → (reads.report w).snapshot_id ≢ 0
      → context_for by reads opts primary s w ≡ reads.context (reads.report w).snapshot_id
  context_for-fresh done s w i h =
      elim (Bool-cases (eqb (reads.report w).snapshot_id s.snapshot_id)) [
        | inr differ ↦ rw differ refl
        | inl same ↦ elim i.context_kept [
          | inl start ↦ absurd (h ((eqb_iff _ _).0 same ∙ start))
          | inr kept ↦ rw same (kept ∙ ap reads.context (sym ((eqb_iff _ _).0 same)))
        ]
      ]

  -- The windows before `w` left its key free.
  key_free :
      (done : List ChurnWindow) (s : WindowState S) (w : ChurnWindow)
      → IsKept done s
      → contains done w ≡ false
      → lookup s.windows (window_key w) ≡ none
  key_free done s w i new = elim (opt_cases (lookup s.windows (window_key w))) [
    | inl free ↦ free
    | inr (p, taken) ↦
        let (v, m, same_key, _, _) = i.from_window (window_key w) p taken in
        absurd (
          not_both (contains done w) new
            ((contains_iff done w).1 (rw (window_key-eq v w same_key) at m)))
  ]

  abbrev pub step_on : WindowState S → ChurnWindow → Option String → WindowState S
  step_on s w =
      keep_window by reads opts primary
        (record s {
          snapshot_id = (reads.report w).snapshot_id;
          snap_ctx = reads.context (reads.report w).snapshot_id;
        })
        w (payload_of w)

  pub window_step-eq :
      (done : List ChurnWindow) (s : WindowState S) (w : ChurnWindow)
      → IsKept done s
      → (reads.report w).snapshot_id ≢ 0
      → window_step by reads opts primary s w ≡ step_on s w (lookup s.sig_to_key (signature_of w))
  window_step-eq done s w i h = rw (context_for-fresh done s w i h) refl

  pub IsKept-same :
      (done : List ChurnWindow) (s : WindowState S) (w : ChurnWindow) (key : String)
      → IsKept done s
      → lookup s.sig_to_key (signature_of w) ≡ some key
      → IsKept (done ++ w ∷ []) (step_on s w (some key))
  IsKept-same done s w key i found = record {
    from_window = λ k p l.
        let (v, m, a, b, c) = i.from_window k p l in (v, Memᴰ.append_left (w ∷ []) m, a, b, c);
    to_window = i.to_window;
    covered = λ v m. elim (in_concat done w v m) [
      | inl old ↦ i.covered v old
      | inr e ↦ (key, rw e found)
    ];
    names_primary = λ m. elim (Bool-cases (same_window w primary)) [
      | inl t ↦ rw (t, sym ((same_window_iff w primary).0 t)) found
      | inr f ↦ elim (in_concat done w primary m) [
        | inl old ↦ rw f (i.names_primary old)
        | inr e ↦
            absurd (not_both (same_window w primary) f ((same_window_iff w primary).1 (sym e)))
      ]
    ];
    context_kept = inr refl;
  }

  pub IsKept-new :
      (done : List ChurnWindow) (s : WindowState S) (w : ChurnWindow)
      → IsKept done s
      → contains done w ≡ false
      → lookup s.sig_to_key (signature_of w) ≡ none
      → IsKept (done ++ w ∷ []) (step_on s w none)
  IsKept-new done s w i new unseen =
      let key = window_key w in
      let free = key_free done s w i new in
      record {
        from_window = λ k p l. elim (Bool-cases (key == k)) [
          | inl t ↦
              let q = at_new s.windows key k (payload_of w) p t l in
              let e = (eq_iff key k).0 t in
              (
                w,
                Memᴰ.append_right done (Memᴰ.head refl),
                e,
                q,
                rw (← q) (put_new s.sig_to_key (signature_of w) key ∙ ap some e),
              )
          | inr f ↦
              let (v, m, a, b, c) =
                i.from_window k p (at_old s.windows key k (payload_of w) p f l) in
              (
                v,
                Memᴰ.append_left (w ∷ []) m,
                a,
                b,
                put_old s.sig_to_key (signature_of w) (window_signature reads p) key k unseen c,
              )
        ];
        to_window = λ sig k l. elim (Bool-cases (signature_of w == sig)) [
          | inl t ↦ (
            payload_of w,
            rw (← at_new s.sig_to_key (signature_of w) sig key k t l)
                (put_new s.windows key (payload_of w)),
            (eq_iff (signature_of w) sig).0 t,
          )
          | inr f ↦
              let (p, kept, e) =
                i.to_window sig k (at_old s.sig_to_key (signature_of w) sig key k f l) in
              (p, put_old s.windows key k (payload_of w) p free kept, e)
        ];
        covered = λ v m. elim (in_concat done w v m) [
          | inl old ↦
              let (k, e) = i.covered v old in
              (k, put_old s.sig_to_key (signature_of w) (signature_of v) key k unseen e)
          | inr e ↦ (key, rw e (put_new s.sig_to_key (signature_of w) key))
        ];
        names_primary = λ m. elim (Bool-cases (same_window w primary)) [
          | inl t ↦
              rw (t, sym ((same_window_iff w primary).0 t))
                (put_new s.sig_to_key (signature_of w) key)
          | inr f ↦ elim (in_concat done w primary m) [
            | inl old ↦ rw f (
                put_old s.sig_to_key (signature_of w) (signature_of primary) key s.primary_key
                  unseen (i.names_primary old))
            | inr e ↦
                absurd (not_both (same_window w primary) f ((same_window_iff w primary).1 (sym e)))
          ]
        ];
        context_kept = inr refl;
      }
