-- ===== src/SymbolTable/Laws.antt =====
-- How the searches of the symbol table see its changes.
use Prim.Native.String.{String}
use text.Mathlib.Text.{◌==◌}
use text.Mathlib.TextEquality.{eq_iff}
use mathlib.Core.Option
use ska_mpi.Prelude.{true, ◌≡◌, refl, none, some, List, [], ◌∷◌, arith, if◌then◌else◌}
use ska_mpi.SymbolTable.{
  Entry, search_name, update_name, is_some, fresh_entry, ensure_name, without_locals, drop_local,
}

pub search_name-update :
    (k j : String) (f : Entry → Entry) (es : List Entry)
    → ((p : Entry) → (f p).name ≡ p.name)
    → search_name j (update_name k f es)
      ≡ (if k == j then Option.map f (search_name j es) else search_name j es)
unfolding search_name update_name
search_name-update k j f [] keep = ground (arith)
search_name-update k j f (p ∷ ps) keep =
    ground (
      arith,
      keep p,
      eq_iff k j,
      eq_iff k p.name,
      eq_iff j p.name,
      search_name-update k j f ps keep,
    )

pub search_name-ensure :
    (left : Entry) (k j : String) (es : List Entry)
    → search_name j (ensure_name left k es) ≡ (
        if k == j
        then some (elim (search_name j es) [ none ↦ fresh_entry left k | some p ↦ p ])
        else search_name j es)
unfolding search_name ensure_name fresh_entry
search_name-ensure left k j es = ground (arith, eq_iff k j, eq_iff j k)

pub search_name-without_locals :
    (j : String) (es : List Entry)
    → search_name j (without_locals es) ≡ Option.map drop_local (search_name j es)
unfolding search_name without_locals
search_name-without_locals j [] = refl
search_name-without_locals j (p ∷ ps) = ground (arith, search_name-without_locals j ps)

pub ensure_name_self :
    (left : Entry) (k : String) (es : List Entry)
    → is_some (search_name k es) ≡ true
    → ensure_name left k es ≡ es
unfolding ensure_name
ensure_name_self left k es h = rw h
