-- ===== src/Block/Protection.antt =====
-- No write to a page goes unseen (`mb_page_native_prot` of source/host/memblock.c).
use chimera_common_minibox.Base.{◌≡◌, refl, Bool, not, ◌&&◌, ◌||◌, arith}
use chimera_common_minibox.Block.Tracking.{prot_writable, status_tracked}
use chimera_common_minibox.Block.{
  Prot, Status, Page, without_write, tracked_prot, native_prot, page_native_prot,
}

native_prot-writable :
    (status : Status) (plan_hold hot dirty held : Bool)
    → prot_writable (native_prot status plan_hold hot dirty held)
      ≡ (status_tracked status && not plan_hold && (hot || (dirty && not held)))
unfolding native_prot without_write tracked_prot
native_prot-writable Status.free plan_hold hot dirty held = refl
native_prot-writable (Status.mapped Prot.no_access) plan_hold hot dirty held = ground arith
native_prot-writable (Status.mapped Prot.r) plan_hold hot dirty held = ground arith
native_prot-writable (Status.mapped Prot.rw) plan_hold hot dirty held = ground arith
native_prot-writable (Status.mapped Prot.rx) plan_hold hot dirty held = ground arith
native_prot-writable (Status.mapped Prot.rwx) plan_hold hot dirty held = ground arith
native_prot-writable (Status.mapped Prot.rwstack) plan_hold hot dirty held = ground arith

-- A page can be written without a fault exactly when the guest has it writable, no planned state owes
-- it, and it is hot or else dirty and not held by an epoch.
pub page_native_prot-writable :
    (p : Page)
    → prot_writable (page_native_prot p)
      ≡ (status_tracked p.status && not p.plan_hold && (p.hot || (p.dirty && not p.held)))
unfolding page_native_prot
page_native_prot-writable p = native_prot-writable p.status p.plan_hold p.hot p.dirty p.held
