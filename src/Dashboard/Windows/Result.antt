-- ===== src/Dashboard/Windows/Result.antt =====
-- What computeWindowPayloads returns, whatever the windows and their reports.
use mathlib.Core.List.{append-nil, append_assoc}
use codewatch.Base.{
  ap, contains_iff, All-mem, sym, contains-append, ◌∙◌, arith, String, some, refl, not-Memᴰ-nil,
  All-of_forall, Memᴰ, Option, string_eq, inr, inl, lookup, [], ◌∷◌, ◌++◌, false, All, ◌≡◌,
  HasNodup, ◌≢◌, contains, List,
}
use codewatch.Dashboard.Payload.{PayloadOptions, Comparisons, DashboardPayload}
use codewatch.Dashboard.Windows.{
  WindowData, window_signature, window_data, ChurnWindow, StoredWindows, WindowState, WindowReads,
  window_key, windows_list, window_step, window_steps, window_start, compute_window_payloads,
}
use codewatch.Dashboard.Windows.Keys.{
  same_window_iff, primary_listed, window_eq, windows_list-HasNodup, primary_listed,
}
use codewatch.Dashboard.Windows.Kept.{
  IsKept, IsKept-same, IsKept-new, window_step-eq, payload_of, signature_of, opt_cases,
}

module _ {S : Type 0} (by : Comparisons S) (reads : WindowReads S) (opts : PayloadOptions)
    (primary : ChurnWindow) where
  abbrev Kept : List ChurnWindow → WindowState S → Type 0
  Kept = IsKept by reads opts primary

  abbrev pub data_of : ChurnWindow → WindowData S
  data_of w = window_data (payload_of by reads opts primary w)

  -- Equal JSON texts are of equal data.
  abbrev pub IsFaithful : Type 0
  IsFaithful =
      (v w : ChurnWindow)
      → reads.stringify (data_of v) ≡ reads.stringify (data_of w)
      → data_of v ≡ data_of w

  IsKept-start : Kept [] (window_start by reads opts primary)
  IsKept-start = record {
    from_window = λ k p l. cc;
    to_window = λ sig k l. cc;
    covered = λ w m. absurd (not-Memᴰ-nil w m);
    names_primary = λ m. absurd (not-Memᴰ-nil primary m);
    context_kept = inl refl;
  }

  Kept-step :
      (done : List ChurnWindow) (s : WindowState S) (w : ChurnWindow)
      → Kept done s
      → contains done w ≡ false
      → (reads.report w).snapshot_id ≢ 0
      → Kept (done ++ w ∷ []) (window_step by reads opts primary s w)
  Kept-step done s w i new h =
      rw (window_step-eq by reads opts primary done s w i h)
        (elim (opt_cases (lookup s.sig_to_key (signature_of by reads opts primary w))) [
          | inl none_yet ↦ rw none_yet (IsKept-new by reads opts primary done s w i new none_yet)
          | inr (key, found) ↦ rw found (IsKept-same by reads opts primary done s w key i found)
        ])

  Kept-steps :
      (done : List ChurnWindow) (s : WindowState S) (ws : List ChurnWindow)
      → ((w : ChurnWindow) → (reads.report w).snapshot_id ≢ 0)
      → Kept done s
      → HasNodup ws
      → All (λ v. contains done v ≡ false) ws
      → Kept (done ++ ws) (window_steps by reads opts primary s ws)
  unfolding window_steps
  Kept-steps done s [] ids i n fresh = rw (append-nil done) i
  Kept-steps done s (w ∷ ws) ids i n fresh = rw (← append_assoc done (w ∷ []) ws) (
      Kept-steps (done ++ w ∷ []) (window_step by reads opts primary s w) ws ids
        (Kept-step done s w i fresh.0 (ids w)) n.1
        (All-of_forall (λ v. contains (done ++ w ∷ []) v ≡ false) ws
          (λ v m. ground (
            arith,
            contains-append done (w ∷ []) v,
            All-mem (λ u. contains done u ≡ false) v ws fresh.1 m,
            n.0,
            contains_iff ws w,
            contains_iff ws v,
            same_window_iff w v,
          ))))

same_value : {o : Option String} {j k : String} → o ≡ some j → o ≡ some k → j ≡ k
same_value h g = cc

none_done : (ws : List ChurnWindow) → All (λ v. contains {K = ChurnWindow} [] v ≡ false) ws
none_done [] = tt
none_done (w ∷ ws) = (refl, none_done ws)

-- Where every report is on a snapshot and equal JSON texts are of equal data, each window offered
-- has exactly one kept payload with its window data: that of a window offered, under that window's
-- key. For the primary window, which is among those offered, it is the one under the primary key.
pub compute_window_payloads_lem :
    {S : Type 0} (by : Comparisons S) (reads : WindowReads S) (opts : PayloadOptions)
    (primary : ChurnWindow) (stored : StoredWindows)
    → ((v : ChurnWindow) → (reads.report v).snapshot_id ≢ 0)
    → IsFaithful by reads opts primary
    → (w : ChurnWindow) → Memᴰ w (windows_list stored primary)
    → Memᴰ primary (windows_list stored primary)
      × ((v : ChurnWindow) × Memᴰ v (windows_list stored primary)
          × (lookup (compute_window_payloads by reads opts primary stored).windows (window_key v)
              ≡ some (payload_of by reads opts primary v))
          × (data_of by reads opts primary v ≡ data_of by reads opts primary w)
          × ((k : String) (p : DashboardPayload S)
              → lookup (compute_window_payloads by reads opts primary stored).windows k ≡ some p
              → window_data p ≡ data_of by reads opts primary w
              → k ≡ window_key v)
          × (w ≡ primary
              → (compute_window_payloads by reads opts primary stored).primary_key ≡ window_key v))
unfolding compute_window_payloads
compute_window_payloads_lem by reads opts primary stored ids faithful w m =
    let ws = windows_list stored primary in
    let i =
      Kept-steps by reads opts primary [] (window_start by reads opts primary) ws ids
        (IsKept-start by reads opts primary) (windows_list-HasNodup stored primary)
        (none_done ws) in
    let (key, covered) = i.covered w m in
    let (p, kept, same_data) = i.to_window (signature_of by reads opts primary w) key covered in
    let (v, listed, named, own, indexed) = i.from_window key p kept in
    (
      primary_listed stored primary,
      (
        v,
        listed,
        ap
              (lookup
                (window_steps by reads opts primary (window_start by reads opts primary)
                  ws).windows)
              named
            ∙ kept
            ∙ ap some (sym own),
        faithful v w (ap (window_signature reads) own ∙ same_data),
        λ k q there same.
            let (_, _, _, _, held) = i.from_window k q there in
            same_value (rw (ap reads.stringify same) at held) covered ∙ sym named,
        λ e.
            same_value (i.names_primary (primary_listed stored primary)) (rw e at covered)
            ∙ sym named,
      ),
    )
