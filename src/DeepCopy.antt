-- ===== src/DeepCopy.antt =====
-- api/v1alpha1/zz_generated.deepcopy.go: copies of structs that point to memory.
pub mod Memory
pub mod Layout
pub mod Into
pub mod Copies
pub mod Structs
pub mod Cells
pub mod Methods
pub mod Objects
pub mod Lists
pub mod Layouts
pub mod Laws
pub mod Isolates
