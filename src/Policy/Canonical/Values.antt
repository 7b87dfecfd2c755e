-- ===== src/Policy/Canonical/Values.antt =====
-- The values of JavaScript that packages/policy-schema/src/canonical.ts tells apart.
use you_tube_gradian_devin.Common.{ℕ, Text, Bool, ◌≢◌}

-- A number is an integer, by its sign and magnitude, or another one: a fraction, NaN, an infinity.
-- `unsupported` is a function, a symbol or a bigint. The properties of an object are its own
-- enumerable ones with string keys, which differ from each other; an array has no holes.
mutual
  pub data Value : Type 0 where
    undefined null other_number unsupported : Value
    boolean : Bool → Value
    integer : (negative : Bool) → ℕ → Value
    string : Text → Value
    array : Items → Value
    object : Fields → Value

  pub data Items : Type 0 where
    nil : Items
    cons : Value → Items → Items

  pub data Fields : Type 0 where
    end : Fields
    field : Text → Value → Fields → Fields

-- Two values that differ in the order of the properties of their objects only, at any depth.
mutual
  pub data Same : Value → Value → Type 0 where
    same_value : {v : Value} → Same v v
    same_array : {xs ys : Items} → SameItems xs ys → Same (array xs) (array ys)
    same_object : {fs gs : Fields} → SameFields fs gs → Same (object fs) (object gs)

  pub data SameItems : Items → Items → Type 0 where
    same_nil : SameItems nil nil
    same_cons :
        {v w : Value} {xs ys : Items}
        → Same v w
        → SameItems xs ys
        → SameItems (cons v xs) (cons w ys)

  pub data SameFields : Fields → Fields → Type 0 where
    same_end : SameFields end end
    same_field :
        {k : Text} {v w : Value} {fs gs : Fields}
        → Same v w
        → SameFields fs gs
        → SameFields (field k v fs) (field k w gs)
    swapped :
        {j k : Text} {v w : Value} {fs : Fields}
        → j ≢ k
        → SameFields (field j v (field k w fs)) (field k w (field j v fs))
    same_trans : {fs gs hs : Fields} → SameFields fs gs → SameFields gs hs → SameFields fs hs
