-- ===== src/Inotify/Print.antt =====
-- The printer of an event in src/inotify.cpp, and the tests of src/inotify.hpp that nothing else calls.
use cdnalizerd.Base.{Bool, true, false, ◌||◌, [], ◌++◌}
use cdnalizerd.Base.Text.{Text, codes}
use cdnalizerd.Inotify.{Event, has_bit, was_created, was_deleted, was_ignored, is_dir}

-- `IN_ACCESS`
unfoldable was_accessed : Event → Bool
unfolding has_bit
was_accessed e = has_bit e.mask 1

-- `IN_MODIFY`
unfoldable was_modified : Event → Bool
unfolding has_bit
was_modified e = has_bit e.mask 2

-- `IN_ATTRIB`
unfoldable was_changed : Event → Bool
unfolding has_bit
was_changed e = has_bit e.mask 4

-- `IN_CLOSE_WRITE`
unfoldable was_saved : Event → Bool
unfolding has_bit
was_saved e = has_bit e.mask 8

-- `IN_CLOSE_NOWRITE`
unfoldable was_closed_without_save : Event → Bool
unfolding has_bit
was_closed_without_save e = has_bit e.mask 16

-- `IN_OPEN`
unfoldable was_opened : Event → Bool
unfolding has_bit
was_opened e = has_bit e.mask 32

-- `IN_MOVED_FROM`
unfoldable was_moved_from : Event → Bool
unfolding has_bit
was_moved_from e = has_bit e.mask 64

-- `IN_MOVED_TO`
unfoldable was_moved_to : Event → Bool
unfolding has_bit
was_moved_to e = has_bit e.mask 128

-- `IN_DELETE_SELF`
unfoldable was_self_deleted : Event → Bool
unfolding has_bit
was_self_deleted e = has_bit e.mask 1024

-- `IN_MOVE_SELF`
unfoldable was_self_moved : Event → Bool
unfolding has_bit
was_self_moved e = has_bit e.mask 2048

-- `IN_ONLYDIR`
unfoldable only_if_dir : Event → Bool
unfolding has_bit
only_if_dir e = has_bit e.mask 16777216

-- `IN_DONT_FOLLOW`
unfoldable dont_follow : Event → Bool
unfolding has_bit
dont_follow e = has_bit e.mask 33554432

-- `IN_EXCL_UNLINK`
unfoldable exclude_events_on_unlinked_objects : Event → Bool
unfolding has_bit
exclude_events_on_unlinked_objects e = has_bit e.mask 67108864

-- `IN_MASK_ADD`
unfoldable add_to_the_mask : Event → Bool
unfolding has_bit
add_to_the_mask e = has_bit e.mask 536870912

-- `IN_ONESHOT`
unfoldable one_shot : Event → Bool
unfolding has_bit
one_shot e = has_bit e.mask 2147483648

-- `IN_UNMOUNT`
unfoldable was_unmounted : Event → Bool
unfolding has_bit
was_unmounted e = has_bit e.mask 8192

-- `IN_Q_OVERFLOW`
unfoldable was_overflowed : Event → Bool
unfolding has_bit
was_overflowed e = has_bit e.mask 16384

-- `IN_MOVE` is IN_MOVED_FROM or IN_MOVED_TO.
unfoldable was_moved : Event → Bool
unfolding was_moved_from was_moved_to
was_moved e = was_moved_from e || was_moved_to e

-- One `if` of the printer.
abbrev label : Bool → Text → Text
label true text = text
label false text = []

-- `operator<<`. `path` is that of the event.
unfoldable pub print_event : Text → Event → Text
unfolding was_accessed was_modified was_changed was_saved was_closed_without_save was_opened
    was_moved_from was_moved_to was_created was_deleted was_self_deleted was_self_moved only_if_dir
    dont_follow exclude_events_on_unlinked_objects add_to_the_mask is_dir one_shot was_ignored
print_event path e =
    codes "Event: path("
    ++ path
    ++ codes ") "
    ++ label (was_accessed e) (codes " Accessed ")
    ++ label (was_modified e) (codes " Modified ")
    ++ label (was_changed e) (codes " Changed ")
    ++ label (was_saved e) (codes " Saved ")
    ++ label (was_closed_without_save e) (codes " ClosedWithoutSave ")
    ++ label (was_opened e) (codes " Opened ")
    ++ label (was_moved_from e) (codes " MovedFrom ")
    ++ label (was_moved_to e) (codes " MovedTo ")
    ++ label (was_created e) (codes " Created ")
    ++ label (was_deleted e) (codes " Deleted ")
    ++ label (was_self_deleted e) (codes " SelfDeleted ")
    ++ label (was_self_moved e) (codes " SelfMoved ")
    ++ label (only_if_dir e) (codes " onlyIfDir ")
    ++ label (dont_follow e) (codes " dontFollow ")
    ++ label (exclude_events_on_unlinked_objects e) (codes " excludeEventsOnUnlinkedObjects ")
    ++ label (add_to_the_mask e) (codes " addToTheMask ")
    ++ label (is_dir e) (codes " isDir ")
    ++ label (one_shot e) (codes " oneShot ")
    ++ label (was_ignored e) (codes " ignored ")
