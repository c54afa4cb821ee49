-- ===== src/Policy/Engine/Budget.antt =====
-- The rolling-24h limit over every history of reservations, commits and releases.
use daxib.Prelude.{ℕ, ◌≤◌, ◌≡◌, refl, ◌∙◌, ap, true, List, [], ◌∷◌, ◌++◌, some, arith, Text}
use daxib.Prelude.Int.{ℤ, pos, ◌+ℤ◌, ◌≤ℤ◌, int_laws}
use daxib.Prelude.Decimal.{set_string, set_string-to_string}
use daxib.Policy.Body.{Policy, or_zero}
use daxib.Policy.Evaluate.{Check, evaluate, window_charge}
use daxib.Policy.Evaluate.Limits.{resolve_limits}
use daxib.Policy.Counter.{
  add_entry, CounterEntry, EntryState, released, is_released, find_entry, update_entry,
}
use daxib.Policy.Counter.Window.{total, charge, sum_window-total, total-append, total-mono}
use daxib.Policy.Counter.Update.{Settles, update_entry-IsNonneg, update_entry-total}
use daxib.Policy.Engine.{Engine, Io, Clock, new_entry, reserve_locked}
use daxib.Policy.Engine.Settlement.{moved, transition_locked, release_locked}
use daxib.Policy.Engine.Cases.{reserve_locked_cases, transition_locked_cases, release_locked_cases}
use daxib.Policy.Engine.Within.{
  Within, entries_of, evaluate-day, IsNonneg-append, Within-mono, load_counter-entries,
  write_counter-Within, window_charge-nonneg,
}

zero_add : (a : ℤ) → pos 0 +ℤ a ≡ a
zero_add a = omega int_laws

-- The entry of a spend counts its charge at most.
new_entry-charge :
    (req : Check) (id : Text) (now later : ℕ)
    → charge later [] (new_entry req id now) ≤ℤ window_charge req
unfolding charge add_entry
new_entry-charge req id now later = ground (
  arith,
  set_string-to_string (window_charge req),
  window_charge-nonneg req,
  zero_add (window_charge req),
)

new_entry-nonneg :
    (req : Check) (id : Text) (now : ℕ) → pos 0 ≤ℤ or_zero (set_string (new_entry req id now).sat)
unfolding or_zero
new_entry-nonneg req id now =
    ground (arith, set_string-to_string (window_charge req), window_charge-nonneg req)

-- An allowed spend, appended to the entries that it was summed over, keeps them within the limit.
spend-Within :
    (p : Policy) (req : Check) (t : Clock) (id : Text) (es : List CounterEntry) (net : Text)
    (limit : ℤ) (now : ℕ)
    → now ≤ t.at_sum
    → t.at_sum ≤ t.at_write
    → (resolve_limits p net).max_day ≡ some limit
    → req.network ≡ net
    → Within limit now es
    → (evaluate p req (some (total t.at_sum [] es)) t.at_evaluate).allowed ≡ true
    → Within limit t.at_write (es ++ new_entry req id t.at_write ∷ [])
unfolding total
spend-Within p req t id es net limit now h h' day same w allowed = record {
  nonneg =
      IsNonneg-append es (new_entry req id t.at_write ∷ []) w.nonneg
        (new_entry-nonneg req id t.at_write, tt);
  below = rw (total-append t.at_write [] es (new_entry req id t.at_write ∷ [])) (
      omega (
        int_laws,
        total-mono t.at_sum t.at_write [] es h' w.nonneg,
        new_entry-charge req id t.at_write t.at_write,
        evaluate-day p req (total t.at_sum [] es) limit t.at_evaluate allowed
            (ap (λ n. (resolve_limits p n).max_day) same ∙ day),
      ));
}

pub reserve_locked-Within :
    (p : Policy) (req : Check) (t : Clock) (id net : Text) (io : Io) (e : Engine) (limit : ℤ)
    (now : ℕ)
    → now ≤ t.at_sum
    → t.at_sum ≤ t.at_write
    → (resolve_limits p net).max_day ≡ some limit
    → Within limit now (entries_of (e.disk net))
    → Within limit t.at_write (entries_of ((reserve_locked p req t id io e).0.disk net))
reserve_locked-Within p req t id net io e limit now h h' day w =
    let later = Within-mono limit now t.at_write _ (omega arith) w in
    reserve_locked_cases (λ e'. Within limit t.at_write (entries_of (e'.disk net))) p req t id io e
      later
      (λ cf loaded allowed.
        write_counter-Within e io req.network net _ t.at_write limit later (λ same.
          spend-Within p req t id cf.entries net limit now h h' day same
            (rw (load_counter-entries e req.network cf loaded, same) w)
            (rw sum_window-total at allowed)))

-- A settled entry, written back, keeps the entries within the limit.
settled-Within :
    (limit : ℤ) (now : ℕ) (es : List CounterEntry) (id : Text) (old new : CounterEntry)
    → find_entry es id ≡ some old
    → Settles old new
    → Within limit now es
    → Within limit now (update_entry es id new)
settled-Within limit now es id old new f s w = record {
  nonneg = update_entry-IsNonneg es id old new f s w.nonneg;
  below = omega (int_laws, w.below, update_entry-total now [] es id old new f s w.nonneg);
}

-- The entry that a transition would rewrite is not a released one that it would count again.
abbrev pub NoRevival : Engine → Text → Text → EntryState → Type 0
NoRevival e network id to =
    (ent : CounterEntry)
    → find_entry (entries_of (e.disk network)) id ≡ some ent
    → is_released ent.state ≡ true
    → is_released to ≡ true

moved-Settles :
    (ent : CounterEntry) (to : EntryState) (txid : Text)
    → (is_released ent.state ≡ true → is_released to ≡ true)
    → Settles ent (moved ent to txid)
moved-Settles ent to txid h = ground arith

pub transition_locked-Within :
    (network id net : Text) (to : EntryState) (txid : Text) (now later : ℕ) (io : Io) (e : Engine)
    (limit : ℤ)
    → now ≤ later
    → NoRevival e network id to
    → Within limit now (entries_of (e.disk net))
    → Within limit later (entries_of ((transition_locked network id to txid later io e).0.disk net))
transition_locked-Within network id net to txid now later io e limit h fresh w =
    let w' = Within-mono limit now later _ h w in
    transition_locked_cases (λ e'. Within limit later (entries_of (e'.disk net))) network id to txid
      later io e w'
      (λ cf ent loaded found.
        let same_entries = load_counter-entries e network cf loaded in
        write_counter-Within e io network net _ later limit w' (λ same.
          settled-Within limit later cf.entries id ent (moved ent to txid) found
            (moved-Settles ent to txid (fresh ent (rw (← same_entries) found)))
            (rw (same_entries, same) w')))

pub release_locked-Within :
    (network id net : Text) (now later : ℕ) (io : Io) (e : Engine) (limit : ℤ)
    → now ≤ later
    → Within limit now (entries_of (e.disk net))
    → Within limit later (entries_of ((release_locked network id later io e).0.disk net))
release_locked-Within network id net now later io e limit h w =
    let w' = Within-mono limit now later _ h w in
    release_locked_cases (λ e'. Within limit later (entries_of (e'.disk net))) network id later io e
      w'
      (λ cf ent loaded found. write_counter-Within e io network net _ later limit w' (λ same.
        settled-Within limit later cf.entries id ent (moved ent released []) found
          (moved-Settles ent released [] (λ r. refl))
          (rw (load_counter-entries e network cf loaded, same) w')))
