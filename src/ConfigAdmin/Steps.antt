-- ===== src/ConfigAdmin/Steps.antt =====
-- What every step of `HandleConfigPost` of src/handlers.go keeps, the handler's steps in order keep.
use umans_dash_go.Prelude.{Option, none, some, List, [], ◌∷◌, All}
use umans_dash_go.ConfigAdmin.{Server, on_some, in_order}

abbrev pub Keeps : (Server → Type 0) → (Server → Server) → Type 0
Keeps P f = (s : Server) → P s → P (f s)

pub on_some-Keeps :
    (P : Server → Type 0) {A : Type 0} (o : Option A) (f : A → Server → Server)
    → ((v : A) → Keeps P (f v))
    → Keeps P (on_some o f)
on_some-Keeps P none f keeps s h = h
on_some-Keeps P (some v) f keeps s h = keeps v s h

pub in_order-Keeps :
    (P : Server → Type 0) (fs : List (Server → Server)) → All (Keeps P) fs → Keeps P (in_order fs)
unfolding in_order
in_order-Keeps P [] keeps s h = h
in_order-Keeps P (f ∷ fs) (keep, keeps) s h = in_order-Keeps P fs keeps (f s) (keep s h)
