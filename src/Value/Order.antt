-- ===== src/Value/Order.antt =====
-- The order of the keys of a map (rct/Value.h), and entries behind the last one.
use rct.Prelude.{ℕ, ◌≡◌, refl, ap, true, List}
use rct.String.Order.{less}
use rct.Value.{Value, Entries, set_entry, end, entry}

-- The keys of a map ascend.
unfoldable pub Above : List ℕ → Entries → Type 0
Above key end = Unit
Above key (entry k v es) = (less key k ≡ true) × Above key es

-- Every key of the first map is below every key of the second.
unfoldable pub Precedes : Entries → Entries → Type 0
Precedes end es = Unit
Precedes (entry k v ds) es = Above k es × Precedes ds es

unfoldable pub append_entry : Entries → List ℕ → Value → Entries
append_entry end k v = entry k v end
append_entry (entry l w ds) k v = entry l w (append_entry ds k v)

unfoldable pub append_entries : Entries → Entries → Entries
append_entries end es = es
append_entries (entry l w ds) es = entry l w (append_entries ds es)

pub set_entry-append_entry :
    (ds : Entries) (k : List ℕ) (v w : Value) (es : Entries)
    → Precedes ds (entry k w es)
    → set_entry k v ds ≡ append_entry ds k v
unfolding set_entry append_entry Precedes Above
set_entry-append_entry end k v w es h = refl
set_entry-append_entry (entry l u ds) k v w es h =
    rw (h.0.0) (ap (λ x. entry l u x) (set_entry-append_entry ds k v w es h.1))

pub Precedes-append_entry :
    (ds : Entries) (k : List ℕ) (v w : Value) (es : Entries)
    → Precedes ds (entry k w es)
    → Above k es
    → Precedes (append_entry ds k v) es
unfolding append_entry Precedes Above
Precedes-append_entry end k v w es h a = (a, search)
Precedes-append_entry (entry l u ds) k v w es h a = (h.0.1, Precedes-append_entry ds k v w es h.1 a)

pub append_entries_end : (ds : Entries) → append_entries ds end ≡ ds
unfolding append_entries
append_entries_end end = refl
append_entries_end (entry l u ds) = ap (λ x. entry l u x) (append_entries_end ds)

pub append_entries_entry :
    (ds : Entries) (k : List ℕ) (v : Value) (es : Entries)
    → append_entries (append_entry ds k v) es ≡ append_entries ds (entry k v es)
unfolding append_entry append_entries
append_entries_entry end k v es = refl
append_entries_entry (entry l u ds) k v es = ap (λ x. entry l u x) (append_entries_entry ds k v es)
